-- ===== src/Variant/Quote/Utf8.antt =====
-- `quote` of src/variant_decode.cpp on texts in UTF-8.
use php_duckdb.Prelude.{
  ℕ, ◌/◌, ◌%◌, ◌<◌, ◌≡◌, ◌⊎◌, inl, inr, refl, sym, ap, ◌∙◌, Bool, true, false, ◌&&◌, [], ◌∷◌, ◌++◌,
  Option, none, some, arith, tests, Bytes, All, ltb, leb, ◌==◌, ==_iff, if◌then◌else◌, Bool-cases,
}
use mathlib.Core.Path.{subst}
use php_duckdb.Variant.Quote.{
  hex_digit, backslash, escape, escaped, quote, read_json_string, quoted_read,
}

-- Where a reader of UTF-8 is: between two characters, before so many continuation bytes, or behind a first byte that
-- narrows the byte after it.
pub data Position : Type 0 where
  start last two_left three_left after_e0 after_ed after_f0 after_f4 : Position

abbrev within_range : ℕ → ℕ → ℕ → Position → Option Position
within_range low high c p = if leb low c && leb c high then some p else none

-- The well-formed byte sequences of RFC 3629.
abbrev step : Position → ℕ → Option Position
step start c =
    if ltb c 0x80
    then some start
    else if ltb c 0xc2
    then none
    else if ltb c 0xe0
    then some last
    else if c == 0xe0
    then some after_e0
    else if c == 0xed
    then some after_ed
    else if ltb c 0xf0
    then some two_left
    else if c == 0xf0
    then some after_f0
    else if ltb c 0xf4
    then some three_left
    else if c == 0xf4
    then some after_f4
    else none
step last c = within_range 0x80 0xbf c start
step two_left c = within_range 0x80 0xbf c last
step three_left c = within_range 0x80 0xbf c two_left
step after_e0 c = within_range 0xa0 0xbf c last
step after_ed c = within_range 0x80 0x9f c last
step after_f0 c = within_range 0x90 0xbf c two_left
step after_f4 c = within_range 0x80 0x8f c two_left

abbrev is_start : Position → Bool
is_start start = true
is_start p = false

abbrev reads_on : Option Position → (Position → Bool) → Bool
reads_on none f = false
reads_on (some p) f = f p

unfoldable pub reads_utf8 : Position → Bytes → Bool
reads_utf8 p [] = is_start p
reads_utf8 p (c ∷ s) = reads_on (step p c) (λ q. reads_utf8 q s)

-- A text of whole characters in UTF-8.
abbrev pub is_utf8 : Bytes → Bool
is_utf8 s = reads_utf8 start s

abbrev IsAscii : ℕ → Type 0
IsAscii c = c < 128

-- An ASCII byte stands between two characters.
step_ascii : (p : Position) (c : ℕ) → c < 128 → step p c ≡ (if is_start p then some start else none)
step_ascii start c h = ground arith
step_ascii last c h = ground arith
step_ascii two_left c h = ground arith
step_ascii three_left c h = ground arith
step_ascii after_e0 c h = ground arith
step_ascii after_ed c h = ground arith
step_ascii after_f0 c h = ground arith
step_ascii after_f4 c h = ground arith

reads_utf8_ascii :
    (p : Position) (c : ℕ) (s : Bytes)
    → c < 128
    → reads_utf8 p (c ∷ s)
      ≡ reads_on (if is_start p then some start else none) (λ q. reads_utf8 q s)
unfolding reads_utf8
reads_utf8_ascii p c s h = ap (λ o. reads_on o (λ q. reads_utf8 q s)) (step_ascii p c h)

reads_utf8-All :
    (xs rest : Bytes) → All IsAscii xs → reads_utf8 start (xs ++ rest) ≡ reads_utf8 start rest
reads_utf8-All [] rest h = refl
reads_utf8-All (x ∷ xs) rest (h, hs) =
    reads_utf8_ascii start x (xs ++ rest) h ∙ reads_utf8-All xs rest hs

-- ASCII bytes for an ASCII byte change nothing.
reads_utf8_replaced :
    (p : Position) (c x : ℕ) (xs rest : Bytes)
    → c < 128
    → All IsAscii (x ∷ xs)
    → reads_utf8 p ((x ∷ xs) ++ rest) ≡ reads_utf8 p (c ∷ rest)
reads_utf8_replaced p c x xs rest h (k, ks) =
    reads_utf8_ascii p x (xs ++ rest) k ∙ within p ∙ sym (reads_utf8_ascii p c rest h)
  where
    within :
        (q : Position)
        → reads_on (if is_start q then some start else none) (λ o. reads_utf8 o (xs ++ rest))
          ≡ reads_on (if is_start q then some start else none) (λ o. reads_utf8 o rest)
    within start = reads_utf8-All xs rest ks
    within last = refl
    within two_left = refl
    within three_left = refl
    within after_e0 = refl
    within after_ed = refl
    within after_f0 = refl
    within after_f4 = refl

-- An escape is of ASCII bytes and stands for one.
abbrev IsPlain : ℕ → Type 0
IsPlain c =
    (escape c ≡ c ∷ [])
    ⊎ ((c < 128) × ((x : ℕ) × (xs : Bytes) × (escape c ≡ x ∷ xs) × All IsAscii (x ∷ xs)))

known-IsPlain : (k c : ℕ) → IsPlain k → (c == k) ≡ true → IsPlain c
known-IsPlain k c h e = subst IsPlain (sym ((==_iff c k).0 e)) h

short : (k x : ℕ) → k < 128 → x < 128 → escape k ≡ backslash ∷ x ∷ [] → IsPlain k
short k x h hx e = inr (h, (backslash, x ∷ [], e, (omega arith, (hx, tt))))

hex_digit_ascii : (d : ℕ) → d < 16 → hex_digit d < 128
hex_digit_ascii d h = ground arith

escape-IsPlain : (c : ℕ) → IsPlain c
escape-IsPlain c = elim (Bool-cases (c == b'"')) [
  | inl e ↦ known-IsPlain b'"' c (short b'"' b'"' (omega arith) (omega arith) refl) e
  | inr e0 ↦ elim (Bool-cases (c == backslash)) [
    | inl e ↦
        known-IsPlain backslash c (short backslash backslash (omega arith) (omega arith) refl) e
    | inr e1 ↦ elim (Bool-cases (c == 8)) [
      | inl e ↦ known-IsPlain 8 c (short 8 b'b' (omega arith) (omega arith) refl) e
      | inr e2 ↦ elim (Bool-cases (c == 12)) [
        | inl e ↦ known-IsPlain 12 c (short 12 b'f' (omega arith) (omega arith) refl) e
        | inr e3 ↦ elim (Bool-cases (c == 10)) [
          | inl e ↦ known-IsPlain 10 c (short 10 b'n' (omega arith) (omega arith) refl) e
          | inr e4 ↦ elim (Bool-cases (c == 13)) [
            | inl e ↦ known-IsPlain 13 c (short 13 b'r' (omega arith) (omega arith) refl) e
            | inr e5 ↦ elim (Bool-cases (c == 9)) [
              | inl e ↦ known-IsPlain 9 c (short 9 b't' (omega arith) (omega arith) refl) e
              | inr e6 ↦ elim (Bool-cases (ltb c 32)) [
                | inr e ↦ inl (rw (e0, e1, e2, e3, e4, e5, e6, e) refl)
                | inl e ↦
                    let small : c < 32 = omega tests in
                    inr (
                      omega (arith, small),
                      (
                        backslash,
                        b'u' ∷ b'0' ∷ b'0' ∷ hex_digit (c / 16) ∷ hex_digit (c % 16) ∷ [],
                        rw (e0, e1, e2, e3, e4, e5, e6, e) refl,
                        (
                          omega arith,
                          (
                            omega arith,
                            (
                              omega arith,
                              (
                                omega arith,
                                (
                                  hex_digit_ascii (c / 16) (omega (arith, small)),
                                  (hex_digit_ascii (c % 16) (omega arith), tt),
                                ),
                              ),
                            ),
                          ),
                        ),
                      ),
                    )
              ]
            ]
          ]
        ]
      ]
    ]
  ]
]

escape-reads_utf8 :
    (p : Position) (c : ℕ) (rest : Bytes)
    → reads_utf8 p (escape c ++ rest) ≡ reads_utf8 p (c ∷ rest)
escape-reads_utf8 p c rest = elim (escape-IsPlain c) [
  | inl e ↦ ap (λ (xs : Bytes). reads_utf8 p (xs ++ rest)) e
  | inr h ↦
      let (small, (x, xs, e, ascii)) = h in
      ap (λ (ys : Bytes). reads_utf8 p (ys ++ rest)) e
      ∙ reads_utf8_replaced p c x xs rest small ascii
]

-- The closing quote ends a text between two characters.
closed : (p : Position) → reads_utf8 p (b'"' ∷ []) ≡ reads_utf8 p []
unfolding reads_utf8
closed start = refl
closed last = refl
closed two_left = refl
closed three_left = refl
closed after_e0 = refl
closed after_ed = refl
closed after_f0 = refl
closed after_f4 = refl

same_on :
    (o : Option Position) (f g : Position → Bool)
    → ((q : Position) → f q ≡ g q)
    → reads_on o f ≡ reads_on o g
same_on none f g h = refl
same_on (some q) f g h = h q

escaped-reads_utf8 : (s : Bytes) (p : Position) → reads_utf8 p (escaped s) ≡ reads_utf8 p s
unfolding reads_utf8
escaped-reads_utf8 [] p = closed p
escaped-reads_utf8 (c ∷ s) p =
    escape-reads_utf8 p c (escaped s)
    ∙ same_on (step p c) (λ q. reads_utf8 q (escaped s)) (λ q. reads_utf8 q s)
        (λ q. escaped-reads_utf8 s q)

-- A reader that undoes JSON's escapes byte by byte, and refuses unescaped bytes below 32, reads the text in quotes as
-- the text again, whatever bytes it has, and leaves what stands behind it; and the text in quotes is UTF-8 exactly if
-- the text is.
pub quote-read_json_string :
    (s rest : Bytes)
    → (read_json_string (quote s ++ rest) ≡ some (s, rest)) × (is_utf8 (quote s) ≡ is_utf8 s)
unfolding quote
quote-read_json_string s rest = (
  quoted_read s rest,
  reads_utf8_ascii start b'"' (escaped s) (omega arith) ∙ escaped-reads_utf8 s start,
)
