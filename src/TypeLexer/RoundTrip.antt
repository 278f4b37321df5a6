-- ===== src/TypeLexer/RoundTrip.antt =====
-- Printed tokens are read back.
use php_duckdb.Prelude.{
  ℕ, zero, suc, ◌+◌, ◌≤◌, ◌<◌, ◌≡◌, refl, ap, ◌∙◌, Bool, true, false, List, [], ◌∷◌, ◌++◌, arith,
  Bytes, length, All, All-append, length-append, ◌==◌, if◌then◌else◌,
}
use php_duckdb.TypeLexer.{
  tokens, with_token, doubled, space, scan, lex, has_nul, tokenize, is_quote, starts_word, is_digit,
  is_mark, continues_word,
}
use php_duckdb.TypeLexer.Progress.{follow, lex-step, lex-nil}
use php_duckdb.TypeLexer.Pieces.{
  Piece, quoted, word, number, mark, Passes, NotNul, IsPiece, as_token, written, print, as_tokens,
}
use php_duckdb.TypeLexer.Scan.{scan-written}

space-found : (s : Bytes) → scan 32 s ≡ space
unfolding scan
space-found s = refl

lex-space : (rounds : ℕ) (s : Bytes) → lex (suc rounds) (32 ∷ s) ≡ lex rounds s
lex-space rounds s = lex-step rounds 32 s ∙ ap (follow rounds s) (space-found s)

written_positive : (p : Piece) → 0 < length (written p)
written_positive (quoted q text) = omega arith
written_positive (word c text) = omega arith
written_positive (number c text) = omega arith
written_positive (mark c) = omega arith

too_few : (a b : ℕ) → a + 2 ≤ b → b < 2 → ⊥
too_few a b h k = omega arith

either {ℓ κ} :
    {A : Type ℓ} (P : A → Type κ) (b : Bool) {a c : A} → P a → P c → P (if b then a else c)
either P true ha hc = ha
either P false ha hc = hc

long_enough :
    (p : Piece) (ps : List Piece) (rounds : ℕ)
    → length (print (p ∷ ps)) ≤ rounds
    → length (print ps) + 2 ≤ rounds
long_enough p ps rounds h =
    let positive = written_positive p in
    let both = length-append (written p) (32 ∷ print ps) in omega (arith, h, positive, both)

-- Enough rounds read the printed pieces back.
lex-print :
    (ps : List Piece) (rounds : ℕ)
    → All IsPiece ps
    → length (print ps) ≤ rounds
    → lex rounds (print ps) ≡ tokens (as_tokens ps)
lex-print [] rounds h enough = lex-nil rounds
lex-print (p ∷ ps) zero h enough =
    let k = long_enough p ps 0 enough in elim (too_few (length (print ps)) 0 k (omega arith)) [ ]
lex-print (p ∷ ps) (suc zero) h enough =
    let k = long_enough p ps 1 enough in elim (too_few (length (print ps)) 1 k (omega arith)) [ ]
lex-print (p ∷ ps) (suc (suc rounds)) (hp, h) enough =
    let k = long_enough p ps (suc (suc rounds)) enough in
    let (c, s, start, found) = scan-written p (print ps) hp in
    ap (lex (suc (suc rounds))) start
    ∙ lex-step (suc rounds) c s
    ∙ ap (follow (suc rounds) s) found
    ∙ ap (with_token (as_token p))
        (lex-space rounds (print ps) ∙ lex-print ps rounds h (omega (arith, k)))

has_nul-append : (s t : Bytes) → All NotNul s → has_nul (s ++ t) ≡ has_nul t
has_nul-append [] t h = refl
has_nul-append (c ∷ s) t (hc, h) = rw hc (has_nul-append s t h)

weaken :
    (test : ℕ → Bool) (s : Bytes)
    → ((c : ℕ) → test c ≡ true → NotNul c)
    → All (Passes test) s
    → All NotNul s
weaken test [] f h = tt
weaken test (c ∷ s) f (hc, h) = (f c hc, weaken test s f h)

word_char : (c : ℕ) → continues_word c ≡ true → NotNul c
word_char c h = ground arith

digit_char : (c : ℕ) → is_digit c ≡ true → NotNul c
digit_char c h = ground arith

doubled-NotNul : (q : ℕ) (s : Bytes) → All NotNul s → All NotNul (doubled q s)
doubled-NotNul q [] h = tt
doubled-NotNul q (c ∷ s) (hc, h) =
    let rest = doubled-NotNul q s h in
    either (All NotNul) (c == q) {a = c ∷ c ∷ doubled q s} {c = c ∷ doubled q s} (hc, (hc, rest))
      (hc, rest)

quote_char : (q : ℕ) → is_quote q ≡ true → NotNul q
quote_char q h = ground arith

first_char : (c : ℕ) → starts_word c ≡ true → NotNul c
first_char c h = ground arith

mark_char : (c : ℕ) → is_mark c ≡ true → NotNul c
mark_char c h = ground arith

written-NotNul : (p : Piece) → IsPiece p → All NotNul (written p)
written-NotNul (quoted q text) (h, a) = (
  quote_char q h,
  All-append NotNul (doubled q text) (q ∷ []) (doubled-NotNul q text a) (quote_char q h, tt),
)
written-NotNul (word c text) (h, a) = (first_char c h, weaken continues_word text word_char a)
written-NotNul (number c text) (h, a) = (digit_char c h, weaken is_digit text digit_char a)
written-NotNul (mark c) h = (mark_char c h, tt)

has_nul-print : (ps : List Piece) → All IsPiece ps → has_nul (print ps) ≡ false
has_nul-print [] h = refl
has_nul-print (p ∷ ps) (hp, h) =
    has_nul-append (written p) (32 ∷ print ps) (written-NotNul p hp) ∙ has_nul-print ps h

-- A text that prints quoted texts without NUL, words, numbers and marks, each followed by a space,
-- is read back as their tokens: a quoted name or string keeps its text, whatever quotes it
-- contains.
pub tokenize-print :
    (ps : List Piece) → All IsPiece ps → tokenize (print ps) ≡ tokens (as_tokens ps)
unfolding tokenize
tokenize-print ps h = rw (has_nul-print ps h) (lex-print ps (length (print ps)) h (omega arith))
