-- ===== src/TypeGrammar/Reading.antt =====
-- The parser on whole types: what it gives for the tokens of a declared type.
use php_duckdb.Prelude.{
  ℕ, zero, suc, ◌≤◌, ◌<◌, ◌≡◌, refl, sym, Bool, true, false, ◌||◌, List, [], ◌∷◌, ◌++◌,
  append_assoc, append-nil, arith, Bytes, length, length-append, ◌==◌, if◌then◌else◌,
}
use php_duckdb.TypeLexer.{Token, word_kind, number_kind, tokenize, tokens}
use php_duckdb.TypeGrammar.{
  Parsed, parsed, at, type, parameters, parameter, parenthesised, arrays, comma, continues,
  has_fields, has_types, type_levels, canonicalize, canonical,
}
use php_duckdb.TypeGrammar.Declared.{
  number_token, word_name, quoted_name, first_word, first_quoted, HeadOf, names, double_precision,
  zoned, varying_char, national_char, national_varying, interval_of, interval_to, CommaOf,
  first_one, after_comma, ArraysOf, no_array, array, sized_array, TypeOf, a_type, ParensOf, bare,
  enclosed, ParamsOf, closed, one_more, ParameterOf, a_field, an_element, a_number, a_text,
}
use php_duckdb.TypeGrammar.Heads.{EndsName, head-HeadOf, ident-NameOf}

-- The first token is a name.
abbrev StartsName : List Token → Type 0
StartsName ts = (at word_kind ts || at b'"' ts) ≡ true

HeadOf-StartsName : {ts : List Token} {name : Bytes} → HeadOf ts name → StartsName ts
HeadOf-StartsName (names (first_word e f g) d n) = rw e
HeadOf-StartsName (names (first_quoted e) d n) = rw e
HeadOf-StartsName (double_precision k l) = rw k.0.is_word
HeadOf-StartsName (zoned stamp without k l m n) = rw k.0.is_word
HeadOf-StartsName (varying_char long k l) = rw k.0.is_word
HeadOf-StartsName (national_char long k l) = rw k.0.is_word
HeadOf-StartsName (national_varying long k l m) = rw k.0.is_word
HeadOf-StartsName (interval_of k l) = rw k.0.is_word
HeadOf-StartsName (interval_to k l m n) = rw k.0.is_word

starts_more : (ts rest : List Token) → StartsName ts → StartsName (ts ++ rest)
starts_more [] rest h = absurd (cc)
starts_more (t ∷ ts) rest h = h

TypeOf-StartsName :
    {levels : ℕ} {ts : List Token} {full : Bytes} → TypeOf levels ts full → StartsName ts
TypeOf-StartsName (a_type {ts = ts} {ps = ps} {bs = bs} h p a) =
    starts_more ts (ps ++ bs) (HeadOf-StartsName h)

-- A token that is no name does not start a type.
other_start :
    (kind : ℕ) (ts rest : List Token)
    → (kind == word_kind) ≡ false
    → (kind == b'"') ≡ false
    → StartsName ts
    → at kind (ts ++ rest) ≡ false
other_start kind [] rest a b h = absurd (cc)
other_start kind (t ∷ ts) rest a b h = grind arith

starts_some : (ts : List Token) → StartsName ts → 0 < length ts
starts_some [] h = absurd (cc)
starts_some (t ∷ ts) h = omega arith

-- What can follow a type.
abbrev EndsType : List Token → Type 0
EndsType rest =
    (at word_kind rest ≡ false)
    × (at b'.' rest ≡ false)
    × (at b'(' rest ≡ false)
    × (at b'[' rest ≡ false)

arrays-end :
    (levels : ℕ) (name : Bytes) (rest : List Token)
    → at b'[' rest ≡ false
    → arrays levels name rest ≡ parsed name rest
unfolding arrays
arrays-end zero name rest h = rw h
arrays-end (suc levels) name rest h = rw h

arrays-ArraysOf :
    {levels : ℕ} {name full : Bytes} {ts : List Token}
    → ArraysOf levels name ts full
    → (rest : List Token) → at b'[' rest ≡ false
    → arrays levels name (ts ++ rest) ≡ parsed full rest
unfolding arrays
arrays-ArraysOf no_array rest h = arrays-end _ _ rest h
arrays-ArraysOf (array a) rest h = arrays-ArraysOf a rest h
arrays-ArraysOf (sized_array a) rest h = arrays-ArraysOf a rest h

-- Neither arrays nor parameters continue a name.
arrays-EndsName :
    {levels : ℕ} {name full : Bytes} {ts : List Token} (rest : List Token)
    → ArraysOf levels name ts full
    → EndsType rest
    → EndsName (ts ++ rest) × (at b'(' (ts ++ rest) ≡ false)
arrays-EndsName rest no_array (w, d, p, b) = ((w, d), p)
arrays-EndsName rest (array a) h = ((refl, refl), refl)
arrays-EndsName rest (sized_array a) h = ((refl, refl), refl)

parens-EndsName :
    {levels : ℕ} {name full : Bytes} {ts : List Token} (rest : List Token)
    → ParensOf levels name ts full
    → EndsName rest
    → EndsName (ts ++ rest)
parens-EndsName rest bare h = h
parens-EndsName rest (enclosed p) h = (refl, refl)

-- What follows a parameter.
abbrev Delimited : List Token → Type 0
Delimited ts = EndsType ts × (0 < length ts)

params-Delimited :
    {levels : ℕ} {base before full : Bytes} {ts : List Token} (rest : List Token)
    → ParamsOf levels base false before ts full
    → Delimited (ts ++ rest)
params-Delimited rest closed = ((refl, refl, refl, refl), omega arith)
params-Delimited rest (one_more after_comma p ps) = ((refl, refl, refl, refl), omega arith)

continues-Delimited :
    (ts : List Token) (f : List Token → Parsed Bytes) → Delimited ts → continues ts f ≡ f ts
continues-Delimited [] f (e, h) = absurd (omega arith)
continues-Delimited (t ∷ ts) f h = refl

parameter-Opens :
    {levels : ℕ} {base text : Bytes} {ts : List Token} (rest : List Token)
    → ParameterOf levels base ts text
    → (at b')' (ts ++ rest) ≡ false) × (0 < length ts)
parameter-Opens rest (a_field e (word_name k) d) = (rw k, omega arith)
parameter-Opens rest (a_field e (quoted_name k) d) = (rw k, omega arith)
parameter-Opens rest (an_element {ts = ts} e f d) =
    (other_start b')' ts rest refl refl (TypeOf-StartsName d), starts_some ts (TypeOf-StartsName d))
parameter-Opens rest (a_number e) = (refl, omega arith)
parameter-Opens rest (a_text e f) = (refl, omega arith)

-- The tokens in front of a parameter are passed, and no parenthesis closes the list there.
comma-CommaOf :
    {first : Bool} {before text : Bytes} {ss : List Token} (rest : List Token)
    → CommaOf first ss before text
    → at b')' rest ≡ false
    → (comma first before (ss ++ rest) ≡ parsed text rest) × (at b')' (ss ++ rest) ≡ false)
comma-CommaOf rest first_one h = (refl, h)
comma-CommaOf rest after_comma h = (refl, refl)

either_way : {A : Type 0} (b : Bool) (x : A) → (if b then x else x) ≡ x
either_way true x = refl
either_way false x = refl

number_parameter :
    (type : List Token → Parsed Bytes) (base size : Bytes) (rest : List Token)
    → has_fields base ≡ false
    → parameter type base (number_token size ∷ rest) ≡ parsed size rest
number_parameter type base size rest e = rw (e, either_way (has_types base) (parsed size rest))

mutual
  unfolding type parameters

  type-TypeOf :
      {levels : ℕ} {ts : List Token} {full : Bytes}
      → TypeOf levels ts full
      → (rest : List Token) → EndsType rest
      → type levels (ts ++ rest) ≡ parsed full rest
  type-TypeOf
        (a_type {levels = levels} {ts = ts} {ps = ps} {bs = bs} {name = name} {text = text} h p a)
        rest e =
      let after = arrays-EndsName rest a e in
      rw
        (
          append_assoc ts (ps ++ bs) rest,
          append_assoc ps bs rest,
          head-HeadOf (ps ++ (bs ++ rest)) h (parens-EndsName (bs ++ rest) p after.0),
          parens-ParensOf p (bs ++ rest) after.1,
        )
        (arrays-ArraysOf a rest e.3)

  parens-ParensOf :
      {levels : ℕ} {name full : Bytes} {ts : List Token}
      → ParensOf levels name ts full
      → (rest : List Token) → at b'(' rest ≡ false
      → parenthesised (type levels) name (ts ++ rest) ≡ parsed full rest
  parens-ParensOf bare rest h = rw h
  parens-ParensOf (enclosed {ts = ts} p) rest h =
      params-ParamsOf p rest (suc (length (ts ++ rest))) (omega (arith, length-append ts rest))

  params-ParamsOf :
      {levels : ℕ} {base before full : Bytes} {first : Bool} {ts : List Token}
      → ParamsOf levels base first before ts full
      → (rest : List Token) (rounds : ℕ) → length ts ≤ rounds
      → parameters (type levels) base rounds first before (ts ++ rest) ≡ parsed full rest
  params-ParamsOf closed rest zero h = absurd (omega arith)
  params-ParamsOf closed rest (suc rounds) h = refl
  params-ParamsOf (one_more {ss = ss} {ps = ps} {ts = ts} c p q) rest zero h =
      absurd (
        omega (arith, length-append ss (ps ++ ts), length-append ps ts, (parameter-Opens rest p).1))
  params-ParamsOf
        (one_more {levels = levels} {base = base} {before = before} {text = text} {parameter = par}
          {ss = ss} {ps = ps} {ts = ts} c p q)
        rest (suc rounds) h =
      let opens = parameter-Opens (ts ++ rest) p in
      let before_it = comma-CommaOf (ps ++ (ts ++ rest)) c opens.0 in
      let behind = params-Delimited rest q in
      rw
        (
          append_assoc ss (ps ++ ts) rest,
          append_assoc ps ts rest,
          before_it.1,
          before_it.0,
          parameter-ParameterOf p (ts ++ rest) behind.0,
          continues-Delimited (ts ++ rest)
              (parameters (type levels) base rounds false (text ++ par)) behind,
        )
        (params-ParamsOf q rest rounds
          (omega (arith, length-append ss (ps ++ ts), length-append ps ts, opens.1)))

  parameter-ParameterOf :
      {levels : ℕ} {base text : Bytes} {ts : List Token}
      → ParameterOf levels base ts text
      → (rest : List Token) → EndsType rest
      → parameter (type levels) base (ts ++ rest) ≡ parsed text rest
  parameter-ParameterOf (a_field e n d) rest h = rw (e, ident-NameOf _ n, type-TypeOf d rest h)
  parameter-ParameterOf (an_element {ts = ts} e f d) rest h =
      rw (e, f, other_start number_kind ts rest refl refl (TypeOf-StartsName d))
        (type-TypeOf d rest h)
  parameter-ParameterOf (a_number {levels = levels} {base = base} {size = size} e) rest h =
      number_parameter (type levels) base size rest e
  parameter-ParameterOf (a_text e f) rest h = rw (e, f)

-- A declaration whose tokens make a type of the grammar, at most 65 levels deep with its arrays counted,
-- is made canonical, and the text is the one that the grammar gives the tokens: the first name of a type and the
-- grammar's own words in capitals; the further parts of a dotted name and the names of fields as they were
-- written; what was quoted quoted again; one blank between the words of a name, behind each comma and behind
-- each field name; and no others.
pub canonicalize-TypeOf :
    {ts : List Token} {full : Bytes} (declaration : Bytes)
    → tokenize declaration ≡ tokens ts
    → TypeOf type_levels ts full
    → canonicalize declaration ≡ canonical full
unfolding canonicalize
canonicalize-TypeOf {ts = ts} {full = full} declaration e d =
    let read = type-TypeOf d [] (refl, refl, refl, refl) in rw (e, sym (append-nil ts), read) refl
