-- ===== src/TypeLexer/Tests.antt =====
-- Runs of the lexer, and its theorems at concrete declarations.
use php_duckdb.Prelude.{◌≡◌, refl, List, [], ◌∷◌, codes}
use php_duckdb.TypeLexer.{tokens, refused, tokenize, lex, scan, unterminated}
use php_duckdb.TypeLexer.Pieces.{Piece, quoted, word, number, mark, print, as_tokens}
use php_duckdb.TypeLexer.RoundTrip.{tokenize-print}

unclosed : tokenize (codes "STRUCT(\"a") ≡ refused unterminated
unfolding tokenize lex scan
unclosed = refl

-- The name `a"b`, and `INT`, in parentheses.
abbrev pieces : List Piece
pieces =
    quoted 34 (97 ∷ 34 ∷ 98 ∷ []) ∷ mark 40 ∷ word 73 (78 ∷ 84 ∷ []) ∷ number 56 [] ∷ mark 41 ∷ []

tokenize-print_example : tokenize (print pieces) ≡ tokens (as_tokens pieces)
tokenize-print_example = tokenize-print pieces (
  (refl, (refl, (refl, (refl, tt)))),
  (refl, ((refl, (refl, (refl, tt))), ((refl, tt), (refl, tt)))),
)
