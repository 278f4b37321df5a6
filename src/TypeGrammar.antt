-- ===== src/TypeGrammar.antt =====
-- src/typed_value.cpp: the grammar of type declarations, `parser::type` and `duckdb_canonicalize_type`.
pub mod Progress
pub mod Declared
pub mod Heads
pub mod Reading
mod Tests
use php_duckdb.Prelude.{
  ℕ, zero, suc, ◌+◌, ◌-◌, Bool, true, false, not, ◌&&◌, ◌||◌, List, [], ◌∷◌, ◌++◌, Bytes, codes,
  bytes_eq, length, leb, ◌==◌, if◌then◌else◌,
}
use php_duckdb.TypeLexer.{Token, word_kind, number_kind, quote, Lexed, tokens, refused, tokenize}
use php_duckdb.TypeLexer

-- The exceptions of the parser; the last one stands for rounds that the model lacks.
pub data Problem : Type 0 where
  nesting_limit expected_name internal_type expected_time_zone expected_char expected_unit : Problem
  expected_parameter unterminated_parameters empty_parameters malformed trailing out_of_rounds :
      Problem
  lexical : TypeLexer.Error → Problem

-- What a part of the parser gives: a value and the tokens behind it, or an exception.
pub data Parsed (A : Type 0) : Type 0 where
  parsed : A → List Token → Parsed A
  problem : Problem → Parsed A

abbrev pub and_then : {A B : Type 0} → Parsed A → (A → List Token → Parsed B) → Parsed B
and_then (parsed a ts) f = f a ts
and_then (problem p) f = problem p

-- `parser::at`, and the tokens from the next position on.
abbrev pub at : ℕ → List Token → Bool
at kind [] = false
at kind (t ∷ ts) = t.kind == kind

abbrev pub next : List Token → List Token
next [] = []
next (t ∷ ts) = ts

abbrev pub text_at : List Token → Bytes
text_at [] = []
text_at (t ∷ ts) = t.text

-- `std::toupper` in the C locale, and `parser::upper`.
abbrev pub upper_byte : ℕ → ℕ
upper_byte c = if leb 97 c && leb c 122 then c - 32 else c

abbrev pub upper : Bytes → Bytes
upper [] = []
upper (c ∷ s) = upper_byte c ∷ upper s

-- `parser::word`.
abbrev pub word : Bytes → List Token → Bool
word s ts = at word_kind ts && bytes_eq (upper (text_at ts)) s

-- `parser::ident`.
abbrev pub ident : List Token → Parsed Bytes
ident [] = problem expected_name
ident (t ∷ ts) =
    if t.kind == word_kind
    then parsed t.text ts
    else if t.kind == b'"'
    then parsed (quote b'"' t.text) ts
    else problem expected_name

-- `parser::need`.
abbrev pub need : ℕ → List Token → Parsed Bytes
need kind ts = if at kind ts then parsed (kind ∷ []) (next ts) else problem malformed

abbrev pub member : Bytes → List Bytes → Bool
member s [] = false
member s (t ∷ ts) = bytes_eq s t || member s ts

abbrev pub internal_types : List Bytes
internal_types =
    codes "INVALID"
    ∷ codes "ANY"
    ∷ codes "UNKNOWN"
    ∷ codes "SQLNULL"
    ∷ codes "INTEGER_LITERAL"
    ∷ codes "STRING_LITERAL"
    ∷ codes "LAMBDA"
    ∷ codes "TABLE"
    ∷ codes "POINTER"
    ∷ codes "VALIDITY"
    ∷ []

abbrev pub starts_quoted : Bytes → Bool
starts_quoted [] = false
starts_quoted (c ∷ s) = c == b'"'

-- The first name of a type.
abbrev pub type_name : List Token → Parsed Bytes
type_name ts = and_then (ident ts) (λ text ts'.
    let name = if starts_quoted text then text else upper text in
    if member name internal_types then problem internal_type else parsed name ts')

-- The names behind dots.
unfoldable pub dotted : Bytes → List Token → Parsed Bytes
dotted name [] = parsed name []
dotted name (t ∷ []) = if t.kind == b'.' then problem expected_name else parsed name (t ∷ [])
dotted name (t ∷ u ∷ ts) =
    let as_word = dotted (name ++ (b'.' ∷ u.text)) ts in
    let as_quoted = dotted (name ++ (b'.' ∷ quote b'"' u.text)) ts in
    if t.kind == b'.'
    then (if u.kind == word_kind
        then as_word
        else if u.kind == b'"'
        then as_quoted
        else problem expected_name)
    else parsed name (t ∷ u ∷ ts)

-- The words that belong to a name.
abbrev pub precision : Bytes → List Token → Parsed Bytes
precision name ts =
    if bytes_eq name (codes "DOUBLE") && word (codes "PRECISION") ts
    then parsed (name ++ codes " PRECISION") (next ts)
    else parsed name ts

abbrev pub time_zone : Bytes → List Token → Parsed Bytes
time_zone name ts =
    if (bytes_eq name (codes "TIME") || bytes_eq name (codes "TIMESTAMP"))
      && (word (codes "WITH") ts || word (codes "WITHOUT") ts)
    then (if not (word (codes "TIME") (next ts))
        then problem expected_time_zone
        else if not (word (codes "ZONE") (next (next ts)))
        then problem expected_time_zone
        else parsed ((name ++ (b' ' ∷ upper (text_at ts))) ++ codes " TIME ZONE")
            (next (next (next ts))))
    else parsed name ts

abbrev pub national : Bytes → List Token → Parsed Bytes
national name ts =
    if bytes_eq name (codes "NATIONAL")
    then (if not (word (codes "CHAR") ts) && not (word (codes "CHARACTER") ts)
        then problem expected_char
        else parsed (name ++ (b' ' ∷ upper (text_at ts))) (next ts))
    else parsed name ts

abbrev pub character_names : List Bytes
character_names =
    codes "CHARACTER"
    ∷ codes "CHAR"
    ∷ codes "NCHAR"
    ∷ codes "NATIONAL CHAR"
    ∷ codes "NATIONAL CHARACTER"
    ∷ []

abbrev pub varying : Bytes → List Token → Parsed Bytes
varying name ts =
    if member name character_names && word (codes "VARYING") ts
    then parsed (name ++ codes " VARYING") (next ts)
    else parsed name ts

abbrev pub units : List Bytes
units =
    codes "YEAR" ∷ codes "MONTH" ∷ codes "DAY" ∷ codes "HOUR" ∷ codes "MINUTE" ∷ codes "SECOND" ∷ []

abbrev pub unit : List Token → Bool
unit ts = at word_kind ts && member (upper (text_at ts)) units

abbrev pub to_unit : Bytes → List Token → Parsed Bytes
to_unit name ts =
    if word (codes "TO") ts
    then (if not (unit (next ts))
        then problem expected_unit
        else parsed ((name ++ codes " TO ") ++ upper (text_at (next ts))) (next (next ts)))
    else parsed name ts

abbrev pub interval : Bytes → List Token → Parsed Bytes
interval name ts =
    if bytes_eq name (codes "INTERVAL") && unit ts
    then to_unit (name ++ (b' ' ∷ upper (text_at ts))) (next ts)
    else parsed name ts

-- The name of a type, with all the words that belong to it.
abbrev pub head : List Token → Parsed Bytes
head ts =
    and_then
      (and_then
        (and_then (and_then (and_then (and_then (type_name ts) dotted) precision) time_zone)
          national)
        varying)
      interval

abbrev pub has_fields : Bytes → Bool
has_fields base = bytes_eq base (codes "STRUCT") || bytes_eq base (codes "UNION")

abbrev pub has_types : Bytes → Bool
has_types base =
    bytes_eq base (codes "MAP") || (bytes_eq base (codes "LIST") || bytes_eq base (codes "ARRAY"))

-- One parameter, with the parser of the types inside.
abbrev pub parameter : (List Token → Parsed Bytes) → Bytes → List Token → Parsed Bytes
parameter type base ts =
    if has_fields base
    then and_then (ident ts)
        (λ field ts1. and_then (type ts1) (λ text ts2. parsed (field ++ (b' ' ∷ text)) ts2))
    else if has_types base
    then (if at number_kind ts then parsed (text_at ts) (next ts) else type ts)
    else if at b'\'' ts
    then parsed (quote b'\'' (text_at ts)) (next ts)
    else if at number_kind ts
    then parsed (text_at ts) (next ts)
    else problem expected_parameter

abbrev pub comma : Bool → Bytes → List Token → Parsed Bytes
comma first name ts =
    if first
    then parsed name ts
    else and_then (need b',' ts) (λ c ts'. parsed (name ++ codes ", ") ts')

abbrev pub continues : List Token → (List Token → Parsed Bytes) → Parsed Bytes
continues [] f = problem unterminated_parameters
continues (t ∷ ts) f = f (t ∷ ts)

-- The loop over the parameters, up to the closing parenthesis.
unfoldable pub parameters :
    (List Token → Parsed Bytes) → Bytes → ℕ → Bool → Bytes → List Token → Parsed Bytes
parameters type base zero first name ts = problem out_of_rounds
parameters type base (suc rounds) first name ts =
    if at b')' ts
    then (if first then problem empty_parameters else parsed (name ++ (b')' ∷ [])) (next ts))
    else and_then (comma first name ts) (λ name' ts1.
      and_then (parameter type base ts1)
        (λ text ts2. continues ts2 (λ ts3. parameters type base rounds false (name' ++ text) ts3)))

abbrev pub parenthesised : (List Token → Parsed Bytes) → Bytes → List Token → Parsed Bytes
parenthesised type name ts =
    if at b'(' ts
    then parameters type name (length ts) true (name ++ (b'(' ∷ [])) (next ts)
    else parsed name ts

-- What stands between the brackets of an array, and the closing one.
abbrev pub bracket : Bytes → List Token → Parsed Bytes
bracket name ts =
    if at number_kind ts
    then and_then (need b']' (next ts))
        (λ c ts'. parsed ((name ++ (b'[' ∷ text_at ts)) ++ (b']' ∷ [])) ts')
    else and_then (need b']' ts) (λ c ts'. parsed (name ++ codes "[]") ts')

-- The arrays behind a type, each one level deeper.
unfoldable pub arrays : ℕ → Bytes → List Token → Parsed Bytes
arrays zero name ts = if at b'[' ts then problem nesting_limit else parsed name ts
arrays (suc levels) name ts =
    let more = and_then (bracket name (next ts)) (arrays levels) in
    if at b'[' ts then more else parsed name ts

-- `parser::type`, by the levels that are left, the own one included.
unfoldable pub type : ℕ → List Token → Parsed Bytes
type zero ts = problem nesting_limit
type (suc levels) ts = and_then (and_then (head ts) (parenthesised (type levels))) (arrays levels)

abbrev pub type_levels : ℕ
type_levels = 65

pub data Canonical : Type 0 where
  canonical : Bytes → Canonical
  rejected : Problem → Canonical

abbrev pub complete : Parsed Bytes → Canonical
complete (problem p) = rejected p
complete (parsed name []) = canonical name
complete (parsed name (t ∷ ts)) = rejected trailing

abbrev pub canonicalize_tokens : Lexed → Canonical
canonicalize_tokens (refused e) = rejected (lexical e)
canonicalize_tokens (tokens ts) = complete (type type_levels ts)

-- `duckdb_canonicalize_type`.
unfoldable pub canonicalize : Bytes → Canonical
canonicalize declaration = canonicalize_tokens (tokenize declaration)
