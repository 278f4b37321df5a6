-- ===== src/Numeric/Scaled.antt =====
-- DECIMAL cells: the point is put where the scale says, with zeros in front where digits are missing.
use php_duckdb.Prelude.{
  ℕ, zero, suc, ◌+◌, ◌-◌, ◌*◌, ◌/◌, ◌%◌, ◌^◌, ◌≤◌, ◌<◌, ◌≡◌, inl, inr, refl, sym, ap, ◌∙◌, Bool,
  true, false, [], ◌∷◌, ◌++◌, some, arith, tests, Bytes, length, replicate, length-append, ltb, leb,
  ◌==◌, ==_iff, if◌then◌else◌, Bool-cases, lt→ltb, take-append, drop-append, replicate_shift,
}
use php_duckdb.Prelude.Int.{ℤ, pos, negsuc}
use php_duckdb.Prelude.Decimal.{
  decimal, emit, emit_last, emit_more, emit_padded, emit-emit_padded, emit-decimal,
  length-emit_padded, decimal_shape, StartsNonzero,
}
use native.Mathlib.Nat.{pow-suc, one-le-pow}
use php_duckdb.Numeric.{
  Unscaled, smallint, integer, bigint, hugeint, is_negative, magnitude, fill_zeros, put_point,
  insert_point, decimal_render,
}
use php_duckdb.Numeric.Groups.{u128_to_string-decimal}
use php_duckdb.Numeric.Signed.{IsHugeint, pattern_of, negated_lem}

emit_padded_zeros : (k : ℕ) (out : Bytes) → emit_padded k 0 out ≡ replicate k b'0' ++ out
unfolding emit_padded
emit_padded_zeros zero out = refl
emit_padded_zeros (suc k) out = emit_padded_zeros k (b'0' ∷ out) ∙ replicate_shift k b'0' out

emit_padded_step :
    (k d : ℕ) (out : Bytes)
    → emit_padded (suc k) d out ≡ emit_padded k (d / 10) ((b'0' + d % 10) ∷ out)
unfolding emit_padded
emit_padded_step k d out = refl

abbrev Fills : ℕ → ℕ → Bytes → Type 0
Fills k d out =
    emit_padded k d out ≡ replicate (k + length out - length (emit d out)) b'0' ++ emit d out

one_digit-Fills : (k d : ℕ) (out : Bytes) → d < 10 → Fills (suc k) d out
unfolding emit_padded
one_digit-Fills k d out h =
    let zeros : suc k + length out - suc (length out) ≡ k = omega arith in
    let high : d / 10 ≡ 0 = omega arith in
    let low : d % 10 ≡ d = omega arith in
    rw (emit_last d out h, zeros, high, low) (emit_padded_zeros k ((b'0' + d) ∷ out))

-- A padded print is the print with the missing zeros in front.
emit_padded-Fills : (k d : ℕ) (out : Bytes) → d < 10 ^ suc k → Fills (suc k) d out
emit_padded-Fills zero d out h = one_digit-Fills zero d out (omega arith)
emit_padded-Fills (suc k) d out h = elim (Bool-cases (ltb d 10)) [
  | inl small ↦ one_digit-Fills (suc k) d out (omega tests)
  | inr large ↦
      let out' : Bytes = (b'0' + d % 10) ∷ out in
      let count : suc k + suc (length out) ≡ suc (suc k) + length out = omega arith in
      rw (emit_more d out (omega tests)) (
        emit_padded_step (suc k) d out
        ∙ emit_padded-Fills k (d / 10) out' (omega (arith, pow-suc 10 (suc k)))
        ∙ ap (λ (t : ℕ). replicate (t - length (emit (d / 10) out')) b'0' ++ emit (d / 10) out')
            count)
]

-- The number of digits decides on which side of the scale a number stands.
length-emit-le : (k d : ℕ) (out : Bytes) → d < 10 ^ suc k → length (emit d out) ≤ suc k + length out
length-emit-le zero d out h = rw (emit_last d out (omega arith)) (omega arith)
length-emit-le (suc k) d out h = elim (Bool-cases (ltb d 10)) [
  | inl small ↦ rw (emit_last d out (omega tests)) (omega arith)
  | inr large ↦ rw (emit_more d out (omega tests)) (
      omega (
        arith,
        length-emit-le k (d / 10) ((b'0' + d % 10) ∷ out) (omega (arith, pow-suc 10 (suc k))),
      ))
]

positive_of : (s : Bytes) → StartsNonzero s → 0 < length s
positive_of [] h = absurd h
positive_of (c ∷ s) h = omega arith

length-decimal_pos : (n : ℕ) → 0 < n → 0 < length (decimal n)
length-decimal_pos n p = positive_of (decimal n) (decimal_shape n p).1

-- The decimal notation of `n / 10 ^ scale` with `scale` digits behind the point.
abbrev pub fixed_point : ℕ → ℕ → Bytes
fixed_point zero n = decimal n
fixed_point (suc k) n = decimal (n / 10 ^ suc k) ++ b'.' ∷ emit_padded (suc k) (n % 10 ^ suc k) []

put_point-append : (xs ys : Bytes) → put_point (length ys) (xs ++ ys) ≡ xs ++ b'.' ∷ ys
unfolding put_point
put_point-append xs ys =
    let e : length (xs ++ ys) - length ys ≡ length xs = omega (arith, length-append xs ys) in
    rw (e, take-append, drop-append)

put_point-padded :
    (k d : ℕ) (xs : Bytes)
    → put_point (suc k) (xs ++ emit_padded (suc k) d []) ≡ xs ++ b'.' ∷ emit_padded (suc k) d []
put_point-padded k d xs =
    let ys = emit_padded (suc k) d [] in
    ap (λ (t : ℕ). put_point t (xs ++ ys)) {x = suc k} {y = length ys}
      (omega (arith, length-emit_padded (suc k) d []))
    ∙ put_point-append xs ys

insert_point-suc :
    (k : ℕ) (digits : Bytes)
    → insert_point (suc k) digits ≡ put_point (suc k) (fill_zeros (suc k) digits)
unfolding insert_point
insert_point-suc k digits = rw (lt→ltb 0 (suc k) (omega arith))

fill_zeros-long : (k : ℕ) (digits : Bytes) → k < length digits → fill_zeros k digits ≡ digits
unfolding fill_zeros
fill_zeros-long k digits h = ground arith

fill_zeros-short :
    (k d : ℕ) → d < 10 ^ suc k → fill_zeros (suc k) (decimal d) ≡ b'0' ∷ emit_padded (suc k) d []
unfolding fill_zeros decimal
fill_zeros-short k d h =
    let size = length-emit-le k d [] h in
    let short : leb (length (emit d [])) (suc k) ≡ true = ground arith in
    let count : suc k - length (emit d []) + 1 ≡ suc (suc k + 0 - length (emit d [])) =
      omega arith in
    rw (short, count) (ap (λ (ys : Bytes). b'0' ∷ ys) (sym (emit_padded-Fills k d [] h)))

insert_point-large :
    (k q d : ℕ)
    → 0 < q
    → d < 10 ^ suc k
    → insert_point (suc k) (decimal (d + 10 ^ suc k * q))
      ≡ decimal q ++ b'.' ∷ emit_padded (suc k) d []
insert_point-large k q d p h =
    let ys = emit_padded (suc k) d [] in
    let joined : decimal (d + 10 ^ suc k * q) ≡ decimal q ++ ys =
      unfold decimal in sym (emit-emit_padded (suc k) d q [] h p) ∙ emit-decimal q ys in
    let long : suc k < length (decimal q ++ ys) = omega (
      arith,
      length-append (decimal q) ys,
      length-emit_padded (suc k) d [],
      length-decimal_pos q p,
    ) in
    insert_point-suc k (decimal (d + 10 ^ suc k * q))
    ∙ ap (λ (ds : Bytes). put_point (suc k) (fill_zeros (suc k) ds)) joined
    ∙ ap (put_point (suc k)) (fill_zeros-long (suc k) (decimal q ++ ys) long)
    ∙ put_point-padded k d (decimal q)

insert_point-small :
    (k d : ℕ)
    → d < 10 ^ suc k
    → insert_point (suc k) (decimal d) ≡ b'0' ∷ b'.' ∷ emit_padded (suc k) d []
insert_point-small k d h =
    insert_point-suc k (decimal d)
    ∙ ap (put_point (suc k)) (fill_zeros-short k d h)
    ∙ put_point-padded k d (b'0' ∷ [])

-- The text of a magnitude is its fixed-point notation, whatever the number of its digits.
pub insert_point-fixed_point : (scale n : ℕ) → insert_point scale (decimal n) ≡ fixed_point scale n
insert_point-fixed_point zero n = unfold insert_point in refl
insert_point-fixed_point (suc k) n =
    let base = 10 ^ suc k in
    let positive = one-le-pow (suc k) 10 (omega arith) in
    let q = n / base in
    let d = n % base in
    let whole : d + base * q ≡ n = grind arith in
    elim (Bool-cases (q == 0)) [
      | inl z ↦
          let none_left : q ≡ 0 = (==_iff q 0).0 z in
          insert_point-small k n (grind arith)
          ∙ ap (λ (t : ℕ). b'0' ∷ b'.' ∷ emit_padded (suc k) t []) {x = n} {y = d} (grind arith)
          ∙ (unfold decimal in
              ap (λ (t : ℕ). decimal t ++ b'.' ∷ emit_padded (suc k) d []) {x = 0} {y = q}
                (omega arith))
      | inr m ↦
          ap (λ (t : ℕ). insert_point (suc k) (decimal t)) (sym whole)
          ∙ insert_point-large k q d (ground arith) (grind arith)
    ]

-- The sign and the magnitude of the unscaled number of a cell.
abbrev pub is_minus : Unscaled → Bool
is_minus (smallint (pos n)) = false
is_minus (smallint (negsuc n)) = true
is_minus (integer (pos n)) = false
is_minus (integer (negsuc n)) = true
is_minus (bigint (pos n)) = false
is_minus (bigint (negsuc n)) = true
is_minus (hugeint v) = is_negative v.upper

abbrev abs : ℤ → ℕ
abs (pos n) = n
abs (negsuc n) = suc n

abbrev pub absolute : Unscaled → ℕ
absolute (smallint v) = abs v
absolute (integer v) = abs v
absolute (bigint v) = abs v
absolute (hugeint v) = if is_negative v.upper then 2 ^ 128 - pattern_of v else pattern_of v

-- A word of `bits` bits and a sign.
abbrev FitsSigned : ℕ → ℤ → Type 0
FitsSigned half (pos n) = n < half
FitsSigned half (negsuc n) = n < half

abbrev pub IsUnscaled : Unscaled → Type 0
IsUnscaled (smallint v) = FitsSigned (2 ^ 15) v
IsUnscaled (integer v) = FitsSigned (2 ^ 31) v
IsUnscaled (bigint v) = FitsSigned (2 ^ 63) v
IsUnscaled (hugeint v) = IsHugeint v

IsMagnitude : Unscaled → Type 0
IsMagnitude v =
    let m = magnitude v in
    (m.negative ≡ is_minus v)
    × (m.hi * 2 ^ 64 + m.lo ≡ absolute v)
    × (m.hi < 2 ^ 64)
    × (m.lo < 2 ^ 64)

-- Negation in each width gives the magnitude, at the least number of the width too.
magnitude_lem : (v : Unscaled) → IsUnscaled v → IsMagnitude v
unfolding magnitude IsMagnitude
magnitude_lem (smallint (pos n)) h = (refl, omega arith, omega arith, omega arith)
magnitude_lem (smallint (negsuc n)) h = (refl, omega arith, omega arith, omega arith)
magnitude_lem (integer (pos n)) h = (refl, omega arith, omega arith, omega arith)
magnitude_lem (integer (negsuc n)) h = (refl, omega arith, omega arith, omega arith)
magnitude_lem (bigint (pos n)) h = (refl, omega arith, omega arith, omega arith)
magnitude_lem (bigint (negsuc n)) h = (refl, omega arith, omega arith, omega arith)
magnitude_lem (hugeint v) h = elim (Bool-cases (is_negative v.upper)) [
  | inl s ↦ let (e, hi, lo) = negated_lem v h s in rw s (refl, omega arith, hi, lo)
  | inr s ↦ rw s (refl, refl, h.upper_fits, h.lower_fits)
]

-- A DECIMAL whose value fits its internal type is printed exactly: its sign, and the magnitude in
-- fixed-point notation with as many digits behind the point as the scale says.
pub decimal_render-fixed_point :
    (scale : ℕ) (v : Unscaled)
    → IsUnscaled v
    → decimal_render scale v
      ≡ some (
          if is_minus v
          then b'-' ∷ fixed_point scale (absolute v)
          else fixed_point scale (absolute v))
unfolding decimal_render IsMagnitude
decimal_render-fixed_point scale v h =
    let (sign, whole, hi, lo) = magnitude_lem v h in
    let digits = u128_to_string-decimal (magnitude v).hi (magnitude v).lo hi lo in
    rw (digits, sign, whole, insert_point-fixed_point)
