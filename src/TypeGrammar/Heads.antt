-- ===== src/TypeGrammar/Heads.antt =====
-- The parser on the names of types.
use php_duckdb.Prelude.{
  ◌≡◌, refl, Bool, true, false, ◌&&◌, ◌||◌, List, [], ◌∷◌, ◌++◌, Bytes, codes, bytes_eq,
}
use php_duckdb.TypeLexer.{Token, word_kind}
use php_duckdb.TypeGrammar.{
  parsed, and_then, at, word, ident, member, type_name, internal_types, dotted, precision,
  time_zone, varying, interval, head, character_names,
}
use php_duckdb.TypeGrammar.Declared.{
  NameOf, word_name, quoted_name, FirstOf, first_word, first_quoted, DotsOf, no_dots, a_dot,
  IsFirst, HeadOf, names, double_precision, zoned, varying_char, national_char, national_varying,
  interval_of, interval_to,
}

-- What follows a name: no word and no dot.
abbrev pub EndsName : List Token → Type 0
EndsName rest = (at word_kind rest ≡ false) × (at b'.' rest ≡ false)

pub ident-NameOf :
    {t : Token} {text : Bytes} (rest : List Token)
    → NameOf t text
    → ident (t ∷ rest) ≡ parsed text rest
ident-NameOf rest (word_name e) = rw e
ident-NameOf rest (quoted_name e) = rw e

type_name-FirstOf :
    {t : Token} {name : Bytes} (rest : List Token)
    → FirstOf t name
    → type_name (t ∷ rest) ≡ parsed name rest
type_name-FirstOf rest (first_word e f g) = rw (e, f, g)
type_name-FirstOf rest (first_quoted e) = rw e

dotted_end :
    (name : Bytes) (rest : List Token) → at b'.' rest ≡ false → dotted name rest ≡ parsed name rest
unfolding dotted
dotted_end name [] h = refl
dotted_end name (t ∷ []) h = rw h
dotted_end name (t ∷ u ∷ ts) h = rw h

dotted-DotsOf :
    {name full : Bytes} {ts : List Token} (rest : List Token)
    → DotsOf name ts full
    → at b'.' rest ≡ false
    → dotted name (ts ++ rest) ≡ parsed full rest
unfolding dotted
dotted-DotsOf rest no_dots h = dotted_end _ rest h
dotted-DotsOf rest (a_dot (word_name e) d) h = rw e (dotted-DotsOf rest d h)
dotted-DotsOf rest (a_dot (quoted_name e) d) h = rw e (dotted-DotsOf rest d h)

no_word : (s : Bytes) (ts : List Token) → at word_kind ts ≡ false → word s ts ≡ false
no_word s ts h = rw h

and_false : (a b : Bool) → b ≡ false → (a && b) ≡ false
and_false true b h = h
and_false false b h = refl

and_no : (a : Bool) → (a && false) ≡ false
and_no true = refl
and_no false = refl

precision-end :
    (name : Bytes) (rest : List Token)
    → at word_kind rest ≡ false
    → precision name rest ≡ parsed name rest
precision-end name rest h = rw (h, and_no (bytes_eq name (codes "DOUBLE")))

time_zone-end :
    (name : Bytes) (rest : List Token)
    → at word_kind rest ≡ false
    → time_zone name rest ≡ parsed name rest
time_zone-end name rest h =
    rw (h, and_no (bytes_eq name (codes "TIME") || bytes_eq name (codes "TIMESTAMP")))

varying-end :
    (name : Bytes) (rest : List Token)
    → at word_kind rest ≡ false
    → varying name rest ≡ parsed name rest
varying-end name rest h = rw (h, and_no (member name character_names))

interval-end :
    (name : Bytes) (rest : List Token)
    → at word_kind rest ≡ false
    → interval name rest ≡ parsed name rest
interval-end name rest h = rw (h, and_no (bytes_eq name (codes "INTERVAL")))

first-Keyword :
    (t : Token) (s : Bytes) (rest : List Token)
    → IsFirst t s
    → member s internal_types ≡ false
    → type_name (t ∷ rest) ≡ parsed s rest
first-Keyword t s rest (k, q) m = rw (k.is_word, q, k.is_upper, m)

second-Keyword :
    (t u : Token) (s : Bytes) (rest : List Token)
    → IsFirst t s
    → member s internal_types ≡ false
    → u.kind ≡ word_kind
    → and_then (type_name (t ∷ u ∷ rest)) dotted ≡ parsed s (u ∷ rest)
second-Keyword t u s rest k m e =
    rw (first-Keyword t s (u ∷ rest) k m, dotted_end s (u ∷ rest) (rw e)) refl

-- A name is read in full when neither a word nor a dot follows.
pub head-HeadOf :
    {ts : List Token} {full : Bytes} (rest : List Token)
    → HeadOf ts full
    → EndsName rest
    → head (ts ++ rest) ≡ parsed full rest
head-HeadOf rest (names {t = t} {ts = ts} {full = full} f d n) (w, p) = rw (
  type_name-FirstOf (ts ++ rest) f,
  dotted-DotsOf rest d p,
  precision-end full rest w,
  time_zone-end full rest w,
  n,
  varying-end full rest w,
  interval-end full rest w,
)
head-HeadOf rest (double_precision {t = t} {u = u} k l) (w, p) =
    rw (second-Keyword t u (codes "DOUBLE") rest k refl l.is_word, l.is_word, l.is_upper)
head-HeadOf rest (zoned {t = t} {u = u} {v = v} {w = x} true true k l m n) (w, p) = rw (
  second-Keyword t u (codes "TIMESTAMP") (v ∷ x ∷ rest) k refl l.is_word,
  l.is_word,
  l.is_upper,
  m.is_word,
  m.is_upper,
  n.is_word,
  n.is_upper,
)
head-HeadOf rest (zoned {t = t} {u = u} {v = v} {w = x} true false k l m n) (w, p) = rw (
  second-Keyword t u (codes "TIMESTAMP") (v ∷ x ∷ rest) k refl l.is_word,
  l.is_word,
  l.is_upper,
  m.is_word,
  m.is_upper,
  n.is_word,
  n.is_upper,
)
head-HeadOf rest (zoned {t = t} {u = u} {v = v} {w = x} false true k l m n) (w, p) = rw (
  second-Keyword t u (codes "TIME") (v ∷ x ∷ rest) k refl l.is_word,
  l.is_word,
  l.is_upper,
  m.is_word,
  m.is_upper,
  n.is_word,
  n.is_upper,
)
head-HeadOf rest (zoned {t = t} {u = u} {v = v} {w = x} false false k l m n) (w, p) = rw (
  second-Keyword t u (codes "TIME") (v ∷ x ∷ rest) k refl l.is_word,
  l.is_word,
  l.is_upper,
  m.is_word,
  m.is_upper,
  n.is_word,
  n.is_upper,
)
head-HeadOf rest (varying_char {t = t} {u = u} true k l) (w, p) =
    rw (second-Keyword t u (codes "CHARACTER") rest k refl l.is_word, l.is_word, l.is_upper)
head-HeadOf rest (national_char {t = t} {u = u} true k l) (w, p) =
    rw (second-Keyword t u (codes "NATIONAL") rest k refl l.is_word, l.is_word, l.is_upper, w)
head-HeadOf rest (national_varying {t = t} {u = u} {v = v} true k l m) (w, p) = rw (
  second-Keyword t u (codes "NATIONAL") (v ∷ rest) k refl l.is_word,
  l.is_word,
  l.is_upper,
  m.is_word,
  m.is_upper,
)
head-HeadOf rest (varying_char {t = t} {u = u} false k l) (w, p) =
    rw (second-Keyword t u (codes "CHAR") rest k refl l.is_word, l.is_word, l.is_upper)
head-HeadOf rest (national_char {t = t} {u = u} false k l) (w, p) =
    rw (second-Keyword t u (codes "NATIONAL") rest k refl l.is_word, l.is_word, l.is_upper, w)
head-HeadOf rest (national_varying {t = t} {u = u} {v = v} false k l m) (w, p) = rw (
  second-Keyword t u (codes "NATIONAL") (v ∷ rest) k refl l.is_word,
  l.is_word,
  l.is_upper,
  m.is_word,
  m.is_upper,
)
head-HeadOf rest (interval_of {t = t} {u = u} k (l, m)) (w, p) =
    rw (second-Keyword t u (codes "INTERVAL") rest k refl l, l, m, w)
head-HeadOf rest (interval_to {t = t} {u = u} {v = v} {w = x} k (l, m) n (o, q)) (w, p) = rw (
  second-Keyword t u (codes "INTERVAL") (v ∷ x ∷ rest) k refl l,
  l,
  m,
  n.is_word,
  n.is_upper,
  o,
  q,
)
