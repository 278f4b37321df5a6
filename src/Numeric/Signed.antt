-- ===== src/Numeric/Signed.antt =====
-- Signed 128-bit integers: the print of a two's complement pattern is that of its number.
use php_duckdb.Prelude.{
  ℕ, ◌+◌, ◌-◌, ◌*◌, ◌^◌, ◌<◌, ◌≡◌, inl, inr, ap, true, ◌∷◌, some, arith, Bytes, if◌then◌else◌,
  Bool-cases,
}
use php_duckdb.Prelude.Decimal.{decimal}
use php_duckdb.Numeric.{
  Hugeint, is_negative, negated_lo, negated_hi, hugeint_to_string, uhugeint_to_string,
}
use php_duckdb.Numeric.Groups.{u128_to_string-decimal}

pub record IsHugeint (v : Hugeint) : Type 0 where
  pub upper_fits : v.upper < 2 ^ 64
  pub lower_fits : v.lower < 2 ^ 64

abbrev pub pattern_of : Hugeint → ℕ
pattern_of v = v.upper * 2 ^ 64 + v.lower

pub negated_lem :
    (v : Hugeint)
    → IsHugeint v
    → is_negative v.upper ≡ true
    → (negated_hi v * 2 ^ 64 + negated_lo v + pattern_of v ≡ 2 ^ 128)
      × (negated_hi v < 2 ^ 64)
      × (negated_lo v < 2 ^ 64)
negated_lem v f s = ground arith

-- The sign and the decimal digits of the number that the two's complement pattern stands for.
abbrev pub signed_decimal : Hugeint → Bytes
signed_decimal v =
    if is_negative v.upper then b'-' ∷ decimal (2 ^ 128 - pattern_of v) else decimal (pattern_of v)

-- A HUGEINT of two 64-bit halves is printed as the signed decimal notation of its two's complement
-- value, the least one included; the conversion stays within its buffers.
pub hugeint_to_string-decimal :
    (v : Hugeint) → IsHugeint v → hugeint_to_string v ≡ some (signed_decimal v)
unfolding hugeint_to_string
hugeint_to_string-decimal v f = elim (Bool-cases (is_negative v.upper)) [
  | inl s ↦
      let (e, hi, lo) = negated_lem v f s in
      rw (s, u128_to_string-decimal (negated_hi v) (negated_lo v) hi lo)
        (ap (λ (t : ℕ). some (b'-' ∷ decimal t)) {x = negated_hi v * 2 ^ 64 + negated_lo v}
          {y = 2 ^ 128 - pattern_of v} (omega arith))
  | inr s ↦ rw (s, u128_to_string-decimal v.upper v.lower f.upper_fits f.lower_fits)
]

-- A UHUGEINT is printed as its decimal notation.
pub uhugeint_to_string-decimal :
    (v : Hugeint) → IsHugeint v → uhugeint_to_string v ≡ some (decimal (pattern_of v))
unfolding uhugeint_to_string
uhugeint_to_string-decimal v f = u128_to_string-decimal v.upper v.lower f.upper_fits f.lower_fits
