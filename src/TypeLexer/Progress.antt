-- ===== src/TypeLexer/Progress.antt =====
-- The lexer never runs out of rounds.
use php_duckdb.Prelude.{
  ℕ, zero, suc, ◌≤◌, ◌≡◌, ◌≢◌, ◌⊎◌, inl, inr, refl, sym, ◌∙◌, Bool, true, false, List, [], ◌∷◌,
  Option, none, some, arith, Bytes, length, ◌==◌, if◌then◌else◌, Bool-cases,
}
use php_duckdb.TypeLexer.{
  Token, Error, nul, unterminated, invalid, out_of_rounds, Lexed, tokens, refused, with_char,
  read_quoted, span, with_token, Found, space, token, wrong, quoted_token, scan, lex, has_nul,
  tokenize, is_space, is_quote, starts_word, is_digit, is_mark, continues_word,
}

if_has {ℓ κ} :
    {A : Type ℓ} (P : A → Type κ) (b : Bool) {a c : A} → P a → P c → P (if b then a else c)
if_has P true ha hc = ha
if_has P false ha hc = hc

elim_has {ℓ κ} :
    {A : Type ℓ} (P : A → Type κ) (b : Bool) {a c : A}
    → P a
    → P c
    → P (elim b [ true ↦ a | false ↦ c ])
elim_has P true ha hc = ha
elim_has P false ha hc = hc

-- What follows the piece that a round finds is no longer than what followed its first character, and
-- a round does not run out of rounds.
Shrinks : ℕ → Found → Type 0
Shrinks n space = Unit
Shrinks n (token t rest) = length rest ≤ n
Shrinks n (wrong e) = e ≢ out_of_rounds

Short : ℕ → Option (Bytes × Bytes) → Type 0
Short n none = Unit
Short n (some (text, rest)) = length rest ≤ n

Short-with_char : (n c : ℕ) (r : Option (Bytes × Bytes)) → Short n r → Short (suc n) (with_char c r)
unfolding Short
Short-with_char n c none h = h
Short-with_char n c (some (text, rest)) h = omega (arith, h)

Short-more : (n : ℕ) (r : Option (Bytes × Bytes)) → Short n r → Short (suc n) r
unfolding Short
Short-more n none h = h
Short-more n (some (text, rest)) h = omega (arith, h)

read_quoted-Short : (q : ℕ) (s : Bytes) → Short (length s) (read_quoted q s)
unfolding Short
read_quoted-Short q [] = tt
read_quoted-Short q (x ∷ []) =
    if_has (Short 1) (x == q) {a = some ([], [])} {c = none} (omega arith) tt
read_quoted-Short q (x ∷ y ∷ s) =
    let pair = read_quoted-Short q s in
    let next = read_quoted-Short q (y ∷ s) in
    elim_has (Short (suc (suc (length s)))) (x == q)
      (elim_has (Short (suc (suc (length s)))) (y == q)
        (Short-more (suc (length s)) (with_char q (read_quoted q s))
          (Short-with_char (length s) q (read_quoted q s) pair))
        (omega arith))
      (Short-with_char (suc (length s)) x (read_quoted q (y ∷ s)) next)

span-Short : (test : ℕ → Bool) (s : Bytes) → length (span test s).1 ≤ length s
span-Short test [] = omega arith
span-Short test (c ∷ s) =
    let h = span-Short test s in
    if_has (λ (r : Bytes × Bytes). length r.1 ≤ suc (length s)) (test c) (omega (arith, h))
      (omega arith)

quoted-Shrinks : (c n : ℕ) (r : Option (Bytes × Bytes)) → Short n r → Shrinks n (quoted_token c r)
unfolding Short Shrinks
quoted-Shrinks c n none h = λ e. cc
quoted-Shrinks c n (some (text, rest)) h = h

scan-Shrinks : (c : ℕ) (s : Bytes) → Shrinks (length s) (scan c s)
unfolding Shrinks scan
scan-Shrinks c s =
    let P = Shrinks (length s) in
    if_has P (is_space c) tt (
      if_has P (is_quote c) (quoted-Shrinks c (length s) (read_quoted c s) (read_quoted-Short c s))
        (if_has P (starts_word c) (span-Short continues_word s) (
          if_has P (is_digit c) (span-Short is_digit s)
            (if_has P (is_mark c) (omega arith) (λ e. cc)))))

tokens≢refused : {ts : List Token} {e : Error} → tokens ts ≡ refused e → ⊥
tokens≢refused e = cc

refused_injective : {e f : Error} → refused e ≡ refused f → e ≡ f
refused_injective e = cc

four :
    (r : Lexed)
    → r ≢ refused out_of_rounds
    → ((ts : List Token) × (r ≡ tokens ts))
      ⊎ ((r ≡ refused nul) ⊎ ((r ≡ refused unterminated) ⊎ (r ≡ refused invalid)))
four (tokens ts) h = inl (ts, refl)
four (refused nul) h = inr (inl refl)
four (refused unterminated) h = inr (inr (inl refl))
four (refused invalid) h = inr (inr (inr refl))
four (refused out_of_rounds) h = elim (h refl) [ ]

-- What the loop does with what a round finds.
abbrev pub follow : ℕ → Bytes → Found → Lexed
follow rounds s space = lex rounds s
follow rounds s (token t rest) = with_token t (lex rounds rest)
follow rounds s (wrong e) = refused e

with_token-enough :
    (t : Token) (r : Lexed) → r ≢ refused out_of_rounds → with_token t r ≢ refused out_of_rounds
with_token-enough t (tokens ts) h = λ e. tokens≢refused e
with_token-enough t (refused error) h = h

follow-enough :
    (rounds : ℕ) (s : Bytes) (found : Found)
    → Shrinks (length s) found
    → length s ≤ rounds
    → ((u : Bytes) → length u ≤ rounds → lex rounds u ≢ refused out_of_rounds)
    → follow rounds s found ≢ refused out_of_rounds
unfolding Shrinks
follow-enough rounds s space h small more = more s small
follow-enough rounds s (token t rest) h small more =
    with_token-enough t (lex rounds rest) (more rest (omega (arith, h)))
follow-enough rounds s (wrong error) h small more = λ e. h (refused_injective e)

elim-follow :
    (rounds : ℕ) (s : Bytes) (found : Found)
    → (elim found [
      | space ↦ lex rounds s
      | token t rest ↦ with_token t (lex rounds rest)
      | wrong e ↦ refused e
    ])
      ≡ follow rounds s found
elim-follow rounds s space = refl
elim-follow rounds s (token t rest) = refl
elim-follow rounds s (wrong e) = refl

pub lex-step : (rounds c : ℕ) (s : Bytes) → lex (suc rounds) (c ∷ s) ≡ follow rounds s (scan c s)
unfolding lex
lex-step rounds c s = elim-follow rounds s (scan c s)

pub lex-nil : (rounds : ℕ) → lex rounds [] ≡ tokens []
unfolding lex
lex-nil zero = refl
lex-nil (suc rounds) = refl

-- As many rounds as there are characters are enough.
lex-enough : (rounds : ℕ) (s : Bytes) → length s ≤ rounds → lex rounds s ≢ refused out_of_rounds
lex-enough rounds [] h = λ e. tokens≢refused (sym (lex-nil rounds) ∙ e)
lex-enough zero (c ∷ s) h = elim h [ ]
lex-enough (suc rounds) (c ∷ s) h = λ e.
    follow-enough rounds s (scan c s) (scan-Shrinks c s) (omega (arith, h)) (lex-enough rounds)
      (sym (lex-step rounds c s) ∙ e)

-- The lexer answers every text with its tokens or with one of its three errors.
tokenize-answers :
    (s : Bytes)
    → ((ts : List Token) × (tokenize s ≡ tokens ts))
      ⊎ ((tokenize s ≡ refused nul)
          ⊎ ((tokenize s ≡ refused unterminated) ⊎ (tokenize s ≡ refused invalid)))
unfolding tokenize
tokenize-answers s = elim (Bool-cases (has_nul s)) [
  | inl t ↦ inr (inl (rw t))
  | inr f ↦ rw f (four (lex (length s) s) (lex-enough (length s) s (omega arith)))
]

-- The rounds of the lexer are enough for every text.
pub tokenize-enough : (s : Bytes) → tokenize s ≢ refused out_of_rounds
unfolding tokenize
tokenize-enough s = elim (Bool-cases (has_nul s)) [
  | inl t ↦ rw t (λ e. cc)
  | inr f ↦ rw f (lex-enough (length s) s (omega arith))
]
