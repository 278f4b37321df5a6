-- ===== src/TypeLexer/Pieces.antt =====
-- Tokens as a declaration writes them.
use php_duckdb.Prelude.{ℕ, ◌≡◌, Bool, true, false, List, [], ◌∷◌, ◌++◌, Bytes, All, ◌==◌}
use php_duckdb.TypeLexer.{
  Token, quote, is_quote, starts_word, is_digit, is_mark, word_kind, number_kind, continues_word,
}

-- A token with its text as the declaration writes it: quoted, a word, a number or a mark.
pub data Piece : Type 0 where
  quoted : ℕ → Bytes → Piece
  word : ℕ → Bytes → Piece
  number : ℕ → Bytes → Piece
  mark : ℕ → Piece

abbrev pub Passes : (ℕ → Bool) → ℕ → Type 0
Passes test c = test c ≡ true

abbrev pub NotNul : ℕ → Type 0
NotNul c = (c == 0) ≡ false

-- A quoted text may hold anything but NUL; a word and a number have their characters.
abbrev pub IsPiece : Piece → Type 0
IsPiece (quoted q text) = (is_quote q ≡ true) × All NotNul text
IsPiece (word c text) = (starts_word c ≡ true) × All (Passes continues_word) text
IsPiece (number c text) = (is_digit c ≡ true) × All (Passes is_digit) text
IsPiece (mark c) = is_mark c ≡ true

abbrev pub as_token : Piece → Token
as_token (quoted q text) = record { text = text; kind = q }
as_token (word c text) = record { text = c ∷ text; kind = word_kind }
as_token (number c text) = record { text = c ∷ text; kind = number_kind }
as_token (mark c) = record { text = c ∷ []; kind = c }

abbrev pub written : Piece → Bytes
written (quoted q text) = quote q text
written (word c text) = c ∷ text
written (number c text) = c ∷ text
written (mark c) = c ∷ []

-- Each piece followed by a space.
abbrev pub print : List Piece → Bytes
print [] = []
print (p ∷ ps) = written p ++ (32 ∷ print ps)

abbrev pub as_tokens : List Piece → List Token
as_tokens [] = []
as_tokens (p ∷ ps) = as_token p ∷ as_tokens ps
