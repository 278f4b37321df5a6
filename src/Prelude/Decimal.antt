-- ===== src/Prelude/Decimal.antt =====
-- Decimal notation: `std::to_string` of an unsigned number, and the zero-padded groups from which
-- the program joins the print of a number that no machine word holds.
use native.Mathlib.Nat.{pow-suc, one-le-pow}
use php_duckdb.Prelude.{
  ℕ, zero, suc, ◌+◌, ◌-◌, ◌*◌, ◌/◌, ◌%◌, ◌^◌, ◌≤◌, ◌<◌, ◌≡◌, refl, ap, ◌∙◌, ◌≢◌, [], ◌++◌, length,
  ◌∷◌, arith, Bytes, ltb, ◌==◌, if◌then◌else◌, All, Bool-cases, tests, inl, inr,
}

-- `do { *--p = '0' + n % 10; n /= 10; } while (n);` with the bytes behind `p`. A round divides by
-- ten, so `n + 1` rounds are more than enough.
pub emit_rounds : ℕ → ℕ → Bytes → Bytes
emit_rounds zero n out = out
emit_rounds (suc fuel) n out =
    let out' = (b'0' + n % 10) ∷ out in
    let rest = emit_rounds fuel (n / 10) out' in if n / 10 == 0 then out' else rest

unfoldable pub emit : ℕ → Bytes → Bytes
unfolding emit_rounds
emit n out = emit_rounds (suc n) n out

unfoldable pub decimal : ℕ → Bytes
unfolding emit
decimal n = emit n []

emit_spare_fuel :
    (f g n : ℕ) (out : Bytes) → n < f → n < g → emit_rounds f n out ≡ emit_rounds g n out
unfolding emit_rounds
emit_spare_fuel zero g n out p q = absurd (omega arith)
emit_spare_fuel (suc f) zero n out p q = absurd (omega arith)
emit_spare_fuel (suc f) (suc g) n out p q =
    ground (arith, emit_spare_fuel f g (n / 10) ((b'0' + n % 10) ∷ out))

-- One round of the loop.
pub emit_last : (n : ℕ) (out : Bytes) → n < 10 → emit n out ≡ (b'0' + n) ∷ out
unfolding emit emit_rounds
emit_last n out h = ground arith

pub emit_more : (n : ℕ) (out : Bytes) → 10 ≤ n → emit n out ≡ emit (n / 10) ((b'0' + n % 10) ∷ out)
unfolding emit emit_rounds
emit_more n out h =
    ground (arith, emit_spare_fuel n (suc (n / 10)) (n / 10) ((b'0' + n % 10) ∷ out))

-- `for (j = 0; j < k; ++j) { *--p = '0' + d % 10; d /= 10; }`: `d` in `k` digits, padded by zeros.
unfoldable pub emit_padded : ℕ → ℕ → Bytes → Bytes
emit_padded zero d out = out
emit_padded (suc k) d out = emit_padded k (d / 10) ((b'0' + d % 10) ∷ out)

-- `q` and a padded group of `k` digits behind it print the number that they make together.
pub emit-emit_padded :
    (k d q : ℕ) (out : Bytes)
    → d < 10 ^ k
    → 0 < q
    → emit q (emit_padded k d out) ≡ emit (d + 10 ^ k * q) out
unfolding emit_padded
emit-emit_padded zero d q out h p = ap (λ (t : ℕ). emit t out) (omega arith)
emit-emit_padded (suc k) d q out h p =
    let positive = one-le-pow k 10 (omega arith) in
    let scaled : 10 ^ suc k * q ≡ 10 * (10 ^ k * q) =
      omega (arith, ap (λ (t : ℕ). t * q) (pow-suc 10 k)) in
    let large : 1 ≤ 10 ^ k * q = grind arith in
    let whole = d + 10 ^ suc k * q in
    let low : whole % 10 ≡ d % 10 = omega arith in
    let high : whole / 10 ≡ d / 10 + 10 ^ k * q = omega arith in
    rw (emit_more whole out (omega arith), low, high)
      (emit-emit_padded k (d / 10) q ((b'0' + d % 10) ∷ out) (omega (arith, pow-suc 10 k)) p)

-- The number that decimal digits spell behind `acc`.
abbrev pub read : ℕ → Bytes → ℕ
read acc [] = acc
read acc (c ∷ s) = read (acc * 10 + (c - b'0')) s

read-emit_below : (k n : ℕ) (out : Bytes) → n < k → read 0 (emit n out) ≡ read n out
read-emit_below zero n out h = absurd (omega arith)
read-emit_below (suc k) n out h = elim (Bool-cases (ltb n 10)) [
  | inl small ↦ rw (emit_last n out (omega tests)) (ap (λ (t : ℕ). read t out) (omega arith))
  | inr large ↦ rw (emit_more n out (omega tests)) (
      read-emit_below k (n / 10) ((b'0' + n % 10) ∷ out) (omega tests)
      ∙ ap (λ (t : ℕ). read t out) (omega arith))
]

-- A print reads back as the number.
pub read-decimal : (n : ℕ) → read 0 (decimal n) ≡ n
unfolding decimal
read-decimal n = read-emit_below (suc n) n [] (omega arith)

-- Digits, the first of which is not `0`.
abbrev pub IsDigit : ℕ → Type 0
IsDigit c = (b'0' ≤ c) × (c ≤ b'9')

abbrev pub StartsNonzero : Bytes → Type 0
StartsNonzero [] = ⊥
StartsNonzero (c ∷ s) = c ≢ b'0'

emit_shape_below :
    (k n : ℕ) (out : Bytes)
    → n < k
    → 0 < n
    → All IsDigit out
    → All IsDigit (emit n out) × StartsNonzero (emit n out)
emit_shape_below zero n out h p d = absurd (omega arith)
emit_shape_below (suc k) n out h p d = elim (Bool-cases (ltb n 10)) [
  | inl small ↦
      let h' : n < 10 = omega tests in
      rw (emit_last n out h') (((omega arith, omega arith), d), omega arith)
  | inr large ↦ rw (emit_more n out (omega tests)) (
      emit_shape_below k (n / 10) ((b'0' + n % 10) ∷ out) (omega tests) (omega tests)
        ((omega arith, omega arith), d))
]

-- A print of a positive number is made of digits and has no leading zero.
pub decimal_shape : (n : ℕ) → 0 < n → All IsDigit (decimal n) × StartsNonzero (decimal n)
unfolding decimal
decimal_shape n p = emit_shape_below (suc n) n [] (omega arith) p tt

emit_append_below : (k n : ℕ) (xs ys : Bytes) → n < k → emit n (xs ++ ys) ≡ emit n xs ++ ys
emit_append_below zero n xs ys h = absurd (omega arith)
emit_append_below (suc k) n xs ys h = elim (Bool-cases (ltb n 10)) [
  | inl small ↦ let h' : n < 10 = omega tests in rw (emit_last n (xs ++ ys) h', emit_last n xs h')
  | inr large ↦
      let h' : 10 ≤ n = omega tests in
      rw (emit_more n (xs ++ ys) h', emit_more n xs h')
        (emit_append_below k (n / 10) ((b'0' + n % 10) ∷ xs) ys (omega tests))
]

-- What stands behind the print stays there.
pub emit-decimal : (n : ℕ) (out : Bytes) → emit n out ≡ decimal n ++ out
unfolding decimal
emit-decimal n out = emit_append_below (suc n) n [] out (omega arith)

pub emit_padded-append :
    (k d : ℕ) (xs ys : Bytes) → emit_padded k d (xs ++ ys) ≡ emit_padded k d xs ++ ys
unfolding emit_padded
emit_padded-append zero d xs ys = refl
emit_padded-append (suc k) d xs ys = emit_padded-append k (d / 10) ((b'0' + d % 10) ∷ xs) ys

pub length-emit_padded : (k d : ℕ) (out : Bytes) → length (emit_padded k d out) ≡ k + length out
unfolding emit_padded
length-emit_padded zero d out = omega arith
length-emit_padded (suc k) d out =
    omega (arith, length-emit_padded k (d / 10) ((b'0' + d % 10) ∷ out))
