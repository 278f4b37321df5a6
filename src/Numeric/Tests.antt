-- ===== src/Numeric/Tests.antt =====
-- Runs of the number formatting, and its theorems at concrete cells.
use php_duckdb.Prelude.{◌≡◌, refl, some, codes, ◌^◌, ◌-◌, arith}
use php_duckdb.Prelude.Int.{negsuc}
use php_duckdb.Prelude.Decimal.{decimal, emit_padded}
use php_duckdb.Numeric.{
  Hugeint, u128_to_string, uhugeint_to_string, decimal_render, bigint, insert_point, put_point,
  fill_zeros, magnitude, divide,
}
use php_duckdb.Numeric.Signed.{uhugeint_to_string-decimal, IsHugeint}
use php_duckdb.Numeric.Scaled.{decimal_render-fixed_point}

greatest_text :
    u128_to_string (2 ^ 64 - 1) (2 ^ 64 - 1)
    ≡ some (codes "340282366920938463463374607431768211455")
unfolding u128_to_string divide
greatest_text = refl

-- -5, as the bits of a HUGEINT.
abbrev minus_five : Hugeint
minus_five = record { upper = 2 ^ 64 - 1; lower = 2 ^ 64 - 5 }

minus_five-IsHugeint : IsHugeint minus_five
minus_five-IsHugeint = record { upper_fits = omega arith; lower_fits = omega arith }

thousandths : decimal_render 3 (bigint (negsuc 11)) ≡ some (codes "-0.012")
unfolding decimal_render u128_to_string magnitude insert_point put_point fill_zeros
thousandths = refl

uhugeint_to_string-decimal_example :
    uhugeint_to_string minus_five ≡ some (codes "340282366920938463463374607431768211451")
unfolding decimal
uhugeint_to_string-decimal_example = uhugeint_to_string-decimal minus_five minus_five-IsHugeint

decimal_render-fixed_point_example : decimal_render 3 (bigint (negsuc 11)) ≡ some (codes "-0.012")
unfolding decimal emit_padded
decimal_render-fixed_point_example = decimal_render-fixed_point 3 (bigint (negsuc 11)) (omega arith)
