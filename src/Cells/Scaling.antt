-- ===== src/Cells/Scaling.antt =====
-- The scaling of TIMESTAMP_S and TIMESTAMP_MS ticks to microseconds: exact within 64 bits, refused
-- outside them.
use php_duckdb.Prelude.{
  ℕ, zero, suc, ◌+◌, ◌-◌, ◌*◌, ◌/◌, ◌^◌, ◌≡◌, Bool, none, some, arith, ltb, if◌then◌else◌,
}
use php_duckdb.Prelude.Int.{ℤ, pos, negsuc}
use native.Mathlib.Nat.{le-div_iff_mul-le}
use php_duckdb.Cells.Scalar.{scale_to_micros, long_max}

-- The product of a whole number and a natural one.
abbrev pub times : ℤ → ℕ → ℤ
times (pos n) factor = pos (n * factor)
times (negsuc n) zero = pos 0
times (negsuc n) (suc f) = negsuc (n * suc f + f)

-- Whether a number is one of 64 bits with a sign.
abbrev pub in_range : ℤ → Bool
in_range (pos n) = ltb n (2 ^ 63)
in_range (negsuc n) = ltb n (2 ^ 63)

-- A test that divides the bound is the test of the product.
div_test : (n f m : ℕ) → ltb (m / suc f) n ≡ ltb m (n * suc f)
div_test n f m =
    let (to, fro) = le-div_iff_mul-le {k = suc f} {x = n} {y = m} (omega arith) in ground arith

-- For a positive factor the scaling gives the product of the ticks and the factor exactly if that
-- product is a 64-bit number with a sign, and refuses it otherwise; it never wraps around.
pub scale_to_micros-exact :
    (ticks : ℤ) (f : ℕ)
    → scale_to_micros ticks (suc f)
      ≡ (if in_range (times ticks (suc f)) then some (times ticks (suc f)) else none)
unfolding scale_to_micros
scale_to_micros-exact (pos n) f = rw (div_test n f long_max) (ground arith)
scale_to_micros-exact (negsuc n) f =
    let e : suc n * suc f - 1 ≡ n * suc f + f = ground arith in
    rw (div_test (suc n) f (2 ^ 63), e) (ground arith)
