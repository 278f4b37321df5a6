-- ===== src/TypeLexer.antt =====
-- src/typed_value.cpp: the tokens of a type declaration, and the quoting of names and strings.
pub mod Pieces
pub mod Scan
pub mod RoundTrip
pub mod Progress
mod Tests
use php_duckdb.Prelude.{
  ℕ, zero, suc, ◌+◌, Bool, true, false, not, ◌||◌, ◌&&◌, List, [], ◌∷◌, ◌++◌, Option, none, some,
  Bytes, length, leb, ◌==◌, if◌then◌else◌,
}

-- The tests of characters, as in the C locale.
abbrev pub is_space : ℕ → Bool
is_space c = c == 32 || (leb 9 c && leb c 13)

abbrev pub is_digit : ℕ → Bool
is_digit c = leb 48 c && leb c 57

abbrev pub is_alpha : ℕ → Bool
is_alpha c = (leb 65 c && leb c 90) || (leb 97 c && leb c 122)

abbrev pub is_quote : ℕ → Bool
is_quote c = c == 39 || c == 34

abbrev pub starts_word : ℕ → Bool
starts_word c = is_alpha c || (c == 95 || leb 128 c)

abbrev pub continues_word : ℕ → Bool
continues_word c = (is_alpha c || is_digit c) || (c == 95 || (c == 36 || leb 128 c))

-- `(`, `)`, `[`, `]`, `,` and `.`.
abbrev pub is_mark : ℕ → Bool
is_mark c = c == 40 || (c == 41 || (c == 91 || (c == 93 || (c == 44 || c == 46))))

-- Each quote character of the text twice.
abbrev pub doubled : ℕ → Bytes → Bytes
doubled q [] = []
doubled q (c ∷ s) = if c == q then c ∷ c ∷ doubled q s else c ∷ doubled q s

abbrev pub quote : ℕ → Bytes → Bytes
quote q s = q ∷ (doubled q s ++ (q ∷ []))

-- A token: its text, and its kind, the character that `token::kind` holds.
pub record Token : Type 0 where
  pub text : Bytes
  pub kind : ℕ

abbrev pub word_kind : ℕ
word_kind = 105

abbrev pub number_kind : ℕ
number_kind = 110

pub data Error : Type 0 where
  nul unterminated invalid out_of_rounds : Error

pub data Lexed : Type 0 where
  tokens : List Token → Lexed
  refused : Error → Lexed

abbrev pub with_char : ℕ → Option (Bytes × Bytes) → Option (Bytes × Bytes)
with_char c none = none
with_char c (some (text, rest)) = some (c ∷ text, rest)

-- The loop over a quoted token, after its opening quote: the text and what follows, if it is closed.
abbrev pub read_quoted : ℕ → Bytes → Option (Bytes × Bytes)
read_quoted q [] = none
read_quoted q (x ∷ []) = if x == q then some ([], []) else none
read_quoted q (x ∷ y ∷ s) = elim (x == q) [
  | true ↦ elim (y == q) [ true ↦ with_char q (read_quoted q s) | false ↦ some ([], y ∷ s) ]
  | false ↦ with_char x (read_quoted q (y ∷ s))
]

-- The loops over a word and over a number.
abbrev pub span : (ℕ → Bool) → Bytes → Bytes × Bytes
span test [] = ([], [])
span test (c ∷ s) =
    let (text, rest) = span test s in if test c then (c ∷ text, rest) else ([], c ∷ s)

abbrev pub with_token : Token → Lexed → Lexed
with_token t (tokens ts) = tokens (t ∷ ts)
with_token t (refused e) = refused e

-- What one round of the constructor's loop finds: a space, a token with what follows it, or an error.
pub data Found : Type 0 where
  space : Found
  token : Token → Bytes → Found
  wrong : Error → Found

abbrev pub quoted_token : ℕ → Option (Bytes × Bytes) → Found
quoted_token q none = wrong unterminated
quoted_token q (some (text, rest)) = token (record { text = text; kind = q }) rest

abbrev pub spanned_token : ℕ → ℕ → Bytes × Bytes → Found
spanned_token c kind (text, rest) = token (record { text = c ∷ text; kind = kind }) rest

unfoldable pub scan : ℕ → Bytes → Found
scan c s =
    if is_space c
    then space
    else if is_quote c
    then quoted_token c (read_quoted c s)
    else if starts_word c
    then spanned_token c word_kind (span continues_word s)
    else if is_digit c
    then spanned_token c number_kind (span is_digit s)
    else if is_mark c
    then token (record { text = c ∷ []; kind = c }) s
    else wrong invalid

-- The constructor's loop, by the rounds left.
unfoldable pub lex : ℕ → Bytes → Lexed
lex rounds [] = tokens []
lex zero (c ∷ s) = refused out_of_rounds
lex (suc rounds) (c ∷ s) = elim (scan c s) [
  | space ↦ lex rounds s
  | token t rest ↦ with_token t (lex rounds rest)
  | wrong e ↦ refused e
]

abbrev pub has_nul : Bytes → Bool
has_nul [] = false
has_nul (c ∷ s) = c == 0 || has_nul s

-- `parser::parser`.
unfoldable pub tokenize : Bytes → Lexed
tokenize s = if has_nul s then refused nul else lex (length s) s
