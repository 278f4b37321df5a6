-- ===== src/TypeGrammar/Declared.antt =====
-- The language of type declarations as relations between tokens and canonical text.
use php_duckdb.Prelude.{
  ℕ, suc, ◌≡◌, Bool, true, false, List, [], ◌∷◌, ◌++◌, Bytes, codes, if◌then◌else◌, bytes_eq,
}
use php_duckdb.TypeLexer.{Token, word_kind, number_kind, quote}
use php_duckdb.TypeGrammar.{
  upper, starts_quoted, member, internal_types, units, has_fields, has_types,
}

abbrev pub mark : ℕ → Token
mark kind = record { text = kind ∷ []; kind = kind }

-- A name is a word or a text in double quotes.
pub data NameOf : Token → Bytes → Type 0 where
  word_name : {t : Token} → t.kind ≡ word_kind → NameOf t t.text
  quoted_name : {t : Token} → t.kind ≡ b'"' → NameOf t (quote b'"' t.text)

-- The first name of a type: a word in capitals or a quoted name, and no internal type.
pub data FirstOf : Token → Bytes → Type 0 where
  first_word :
      {t : Token}
      → t.kind ≡ word_kind
      → starts_quoted t.text ≡ false
      → member (upper t.text) internal_types ≡ false
      → FirstOf t (upper t.text)
  first_quoted : {t : Token} → t.kind ≡ b'"' → FirstOf t (quote b'"' t.text)

-- More names behind dots.
pub data DotsOf : Bytes → List Token → Bytes → Type 0 where
  no_dots : {name : Bytes} → DotsOf name [] name
  a_dot :
      {name text full : Bytes} {t : Token} {ts : List Token}
      → NameOf t text
      → DotsOf (name ++ (b'.' ∷ text)) ts full
      → DotsOf name (mark b'.' ∷ t ∷ ts) full

-- A word that stands for a keyword, in any case.
pub record Keyword (t : Token) (s : Bytes) : Type 0 where
  pub is_word : t.kind ≡ word_kind
  pub is_upper : upper t.text ≡ s

abbrev pub IsFirst : Token → Bytes → Type 0
IsFirst t s = Keyword t s × (starts_quoted t.text ≡ false)

abbrev pub time_name : Bool → Bytes
time_name stamp = if stamp then codes "TIMESTAMP" else codes "TIME"

abbrev pub zone_word : Bool → Bytes
zone_word without = if without then codes "WITHOUT" else codes "WITH"

abbrev pub char_word : Bool → Bytes
char_word long = if long then codes "CHARACTER" else codes "CHAR"

abbrev pub IsUnit : Token → Type 0
IsUnit t = (t.kind ≡ word_kind) × (member (upper t.text) units ≡ true)

-- The names of types, those of several words among them.
pub data HeadOf : List Token → Bytes → Type 0 where
  names :
      {t : Token} {ts : List Token} {name full : Bytes}
      → FirstOf t name
      → DotsOf name ts full
      → bytes_eq full (codes "NATIONAL") ≡ false
      → HeadOf (t ∷ ts) full
  double_precision :
      {t u : Token}
      → IsFirst t (codes "DOUBLE")
      → Keyword u (codes "PRECISION")
      → HeadOf (t ∷ u ∷ []) (codes "DOUBLE PRECISION")
  zoned :
      {t u v w : Token} (stamp without : Bool)
      → IsFirst t (time_name stamp)
      → Keyword u (zone_word without)
      → Keyword v (codes "TIME")
      → Keyword w (codes "ZONE")
      → HeadOf
          (t ∷ u ∷ v ∷ w ∷ [])
          ((time_name stamp ++ (b' ' ∷ zone_word without)) ++ codes " TIME ZONE")
  varying_char :
      {t u : Token} (long : Bool)
      → IsFirst t (char_word long)
      → Keyword u (codes "VARYING")
      → HeadOf (t ∷ u ∷ []) (char_word long ++ codes " VARYING")
  national_char :
      {t u : Token} (long : Bool)
      → IsFirst t (codes "NATIONAL")
      → Keyword u (char_word long)
      → HeadOf (t ∷ u ∷ []) (codes "NATIONAL " ++ char_word long)
  national_varying :
      {t u v : Token} (long : Bool)
      → IsFirst t (codes "NATIONAL")
      → Keyword u (char_word long)
      → Keyword v (codes "VARYING")
      → HeadOf (t ∷ u ∷ v ∷ []) ((codes "NATIONAL " ++ char_word long) ++ codes " VARYING")
  interval_of :
      {t u : Token}
      → IsFirst t (codes "INTERVAL")
      → IsUnit u
      → HeadOf (t ∷ u ∷ []) (codes "INTERVAL " ++ upper u.text)
  interval_to :
      {t u v w : Token}
      → IsFirst t (codes "INTERVAL")
      → IsUnit u
      → Keyword v (codes "TO")
      → IsUnit w
      → HeadOf
          (t ∷ u ∷ v ∷ w ∷ [])
          (((codes "INTERVAL " ++ upper u.text) ++ codes " TO ") ++ upper w.text)

-- The tokens in front of a parameter.
pub data CommaOf : Bool → List Token → Bytes → Bytes → Type 0 where
  first_one : {name : Bytes} → CommaOf true [] name name
  after_comma : {name : Bytes} → CommaOf false (mark b',' ∷ []) name (name ++ codes ", ")

abbrev pub number_token : Bytes → Token
number_token text = record { text = text; kind = number_kind }

-- The arrays behind a type, each one level deeper.
pub data ArraysOf : ℕ → Bytes → List Token → Bytes → Type 0 where
  no_array : {levels : ℕ} {name : Bytes} → ArraysOf levels name [] name
  array :
      {levels : ℕ} {name full : Bytes} {ts : List Token}
      → ArraysOf levels (name ++ codes "[]") ts full
      → ArraysOf (suc levels) name (mark b'[' ∷ mark b']' ∷ ts) full
  sized_array :
      {levels : ℕ} {name full size : Bytes} {ts : List Token}
      → ArraysOf levels ((name ++ (b'[' ∷ size)) ++ (b']' ∷ [])) ts full
      → ArraysOf (suc levels) name (mark b'[' ∷ number_token size ∷ mark b']' ∷ ts) full

-- Types with so many levels, their parameters in parentheses, the parameters from one on with what has
-- been written before, and one parameter.
mutual
  pub data TypeOf : ℕ → List Token → Bytes → Type 0 where
    a_type :
        {levels : ℕ} {ts ps bs : List Token} {name text full : Bytes}
        → HeadOf ts name
        → ParensOf levels name ps text
        → ArraysOf levels text bs full
        → TypeOf (suc levels) (ts ++ (ps ++ bs)) full

  pub data ParensOf : ℕ → Bytes → List Token → Bytes → Type 0 where
    bare : {levels : ℕ} {name : Bytes} → ParensOf levels name [] name
    enclosed :
        {levels : ℕ} {name full : Bytes} {ts : List Token}
        → ParamsOf levels name true (name ++ (b'(' ∷ [])) ts full
        → ParensOf levels name (mark b'(' ∷ ts) full

  pub data ParamsOf : ℕ → Bytes → Bool → Bytes → List Token → Bytes → Type 0 where
    closed :
        {levels : ℕ} {base text : Bytes}
        → ParamsOf levels base false text (mark b')' ∷ []) (text ++ (b')' ∷ []))
    one_more :
        {levels : ℕ} {base before text parameter full : Bytes} {first : Bool}
        {ss ps ts : List Token}
        → CommaOf first ss before text
        → ParameterOf levels base ps parameter
        → ParamsOf levels base false (text ++ parameter) ts full
        → ParamsOf levels base first before (ss ++ (ps ++ ts)) full

  pub data ParameterOf : ℕ → Bytes → List Token → Bytes → Type 0 where
    a_field :
        {levels : ℕ} {base field text : Bytes} {t : Token} {ts : List Token}
        → has_fields base ≡ true
        → NameOf t field
        → TypeOf levels ts text
        → ParameterOf levels base (t ∷ ts) (field ++ (b' ' ∷ text))
    an_element :
        {levels : ℕ} {base text : Bytes} {ts : List Token}
        → has_fields base ≡ false
        → has_types base ≡ true
        → TypeOf levels ts text
        → ParameterOf levels base ts text
    a_number :
        {levels : ℕ} {base size : Bytes}
        → has_fields base ≡ false
        → ParameterOf levels base (number_token size ∷ []) size
    a_text :
        {levels : ℕ} {base text : Bytes}
        → has_fields base ≡ false
        → has_types base ≡ false
        → ParameterOf levels base (record { text = text; kind = b'\'' } ∷ []) (quote b'\'' text)
