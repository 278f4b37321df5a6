-- ===== src/TypeLexer/Scan.antt =====
-- What one round of the lexer makes of a written token.
use php_duckdb.Prelude.{
  ℕ, ◌≡◌, inl, inr, refl, sym, ap, ◌∙◌, Bool, true, false, [], ◌∷◌, ◌++◌, append_assoc, some, arith,
  Bytes, All, ◌==◌, ==_iff, Bool-cases,
}
use php_duckdb.TypeLexer.{
  with_char, read_quoted, span, doubled, token, quoted_token, spanned_token, scan, is_space,
  is_quote, starts_word, is_digit, is_mark, word_kind, number_kind, continues_word,
}
use php_duckdb.TypeLexer.Pieces.{
  Piece, quoted, word, number, mark, Passes, IsPiece, as_token, written,
}

choose_true {ℓ} :
    {A : Type ℓ} (b : Bool) (a c : A) → b ≡ true → (elim b [ true ↦ a | false ↦ c ]) ≡ a
choose_true true a c e = refl
choose_true false a c e = cc

choose_false {ℓ} :
    {A : Type ℓ} (b : Bool) (a c : A) → b ≡ false → (elim b [ true ↦ a | false ↦ c ]) ≡ c
choose_false true a c e = cc
choose_false false a c e = refl

-- One character of a quoted token.
read_quoted-end :
    (q x y : ℕ) (s : Bytes)
    → (x == q) ≡ true
    → (y == q) ≡ false
    → read_quoted q (x ∷ y ∷ s) ≡ some ([], y ∷ s)
read_quoted-end q x y s e f = choose_true (x == q) _ _ e ∙ choose_false (y == q) _ _ f

read_quoted-pair :
    (q x y : ℕ) (s : Bytes)
    → (x == q) ≡ true
    → (y == q) ≡ true
    → read_quoted q (x ∷ y ∷ s) ≡ with_char q (read_quoted q s)
read_quoted-pair q x y s e f = choose_true (x == q) _ _ e ∙ choose_true (y == q) _ _ f

read_quoted-char :
    (q x : ℕ) (s : Bytes) → (x == q) ≡ false → read_quoted q (x ∷ s) ≡ with_char x (read_quoted q s)
read_quoted-char q x [] e = rw e
read_quoted-char q x (y ∷ s) e = choose_false (x == q) _ _ e

same_char : (q : ℕ) → (q == q) ≡ true
same_char q = ground arith

quote-not-space : (q : ℕ) → is_quote q ≡ true → (32 == q) ≡ false
quote-not-space q h = ground arith

read_quoted-doubled :
    (q : ℕ) (text rest : Bytes)
    → is_quote q ≡ true
    → read_quoted q (doubled q text ++ (q ∷ 32 ∷ rest)) ≡ some (text, 32 ∷ rest)
read_quoted-doubled q [] rest h = read_quoted-end q q 32 rest (same_char q) (quote-not-space q h)
read_quoted-doubled q (c ∷ text) rest h =
    let later = read_quoted-doubled q text rest h in
    elim (Bool-cases (c == q)) [
      | inl t ↦
          let twice : doubled q (c ∷ text) ≡ c ∷ c ∷ doubled q text = rw t in
          ap (λ (u : Bytes). read_quoted q (u ++ (q ∷ 32 ∷ rest))) twice
          ∙ read_quoted-pair q c c (doubled q text ++ (q ∷ 32 ∷ rest)) t t
          ∙ ap (with_char q) later
          ∙ ap (λ (k : ℕ). some (k ∷ text, 32 ∷ rest)) (sym ((==_iff c q).0 t))
      | inr f ↦
          let once : doubled q (c ∷ text) ≡ c ∷ doubled q text = rw f in
          ap (λ (u : Bytes). read_quoted q (u ++ (q ∷ 32 ∷ rest))) once
          ∙ read_quoted-char q c (doubled q text ++ (q ∷ 32 ∷ rest)) f
          ∙ ap (with_char c) later
    ]

span-All :
    (test : ℕ → Bool) (text rest : Bytes)
    → test 32 ≡ false
    → All (Passes test) text
    → span test (text ++ (32 ∷ rest)) ≡ (text, 32 ∷ rest)
span-All test [] rest h a = rw h
span-All test (c ∷ text) rest h (hc, a) = rw (hc, span-All test text rest h a)

-- A round, by the first character.
quote-scans : (q : ℕ) → is_quote q ≡ true → is_space q ≡ false
quote-scans q h = ground arith

word-scans : (c : ℕ) → starts_word c ≡ true → (is_space c ≡ false) × (is_quote c ≡ false)
word-scans c h = (ground arith, ground arith)

digit-scans :
    (c : ℕ)
    → is_digit c ≡ true
    → (is_space c ≡ false) × (is_quote c ≡ false) × (starts_word c ≡ false)
digit-scans c h = (ground arith, ground arith, ground arith)

mark-scans :
    (c : ℕ)
    → is_mark c ≡ true
    → (is_space c ≡ false) × (is_quote c ≡ false) × (starts_word c ≡ false) × (is_digit c ≡ false)
mark-scans c h = (ground arith, ground arith, ground arith, ground arith)

scan-quote : (q : ℕ) (s : Bytes) → is_quote q ≡ true → scan q s ≡ quoted_token q (read_quoted q s)
unfolding scan
scan-quote q s h = rw (quote-scans q h, h)

scan-word :
    (c : ℕ) (s : Bytes)
    → starts_word c ≡ true
    → scan c s ≡ spanned_token c word_kind (span continues_word s)
unfolding scan
scan-word c s h = let (a, b) = word-scans c h in rw (a, b, h)

scan-digit :
    (c : ℕ) (s : Bytes)
    → is_digit c ≡ true
    → scan c s ≡ spanned_token c number_kind (span is_digit s)
unfolding scan
scan-digit c s h = let (a, b, d) = digit-scans c h in rw (a, b, d, h)

scan-mark :
    (c : ℕ) (s : Bytes) → is_mark c ≡ true → scan c s ≡ token (record { text = c ∷ []; kind = c }) s
unfolding scan
scan-mark c s h = let (a, b, d, e) = mark-scans c h in rw (a, b, d, e, h)

-- What a piece starts with, and what a round makes of it.
pub scan-written :
    (p : Piece) (rest : Bytes)
    → IsPiece p
    → (c : ℕ) × (s : Bytes) × (written p ++ (32 ∷ rest) ≡ c ∷ s)
      × (scan c s ≡ token (as_token p) (32 ∷ rest))
scan-written (quoted q text) rest (h, a) = (
  q,
  doubled q text ++ (q ∷ 32 ∷ rest),
  ap (λ (u : Bytes). q ∷ u) (append_assoc (doubled q text) (q ∷ []) (32 ∷ rest)),
  scan-quote q (doubled q text ++ (q ∷ 32 ∷ rest)) h
      ∙ ap (quoted_token q) (read_quoted-doubled q text rest h),
)
scan-written (word c text) rest (h, a) = (
  c,
  text ++ (32 ∷ rest),
  refl,
  scan-word c (text ++ (32 ∷ rest)) h
      ∙ ap (spanned_token c word_kind) (span-All continues_word text rest refl a),
)
scan-written (number c text) rest (h, a) = (
  c,
  text ++ (32 ∷ rest),
  refl,
  scan-digit c (text ++ (32 ∷ rest)) h
      ∙ ap (spanned_token c number_kind) (span-All is_digit text rest refl a),
)
scan-written (mark c) rest h = (c, 32 ∷ rest, refl, scan-mark c (32 ∷ rest) h)
