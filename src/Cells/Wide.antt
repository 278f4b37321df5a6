-- ===== src/Cells/Wide.antt =====
-- HUGEINT, UHUGEINT and UBIGINT cells: a PHP int where one can hold the number, its decimal notation
-- elsewhere.
use php_duckdb.Prelude.{◌-◌, ◌^◌, ◌≡◌, Bool, arith, ltb, leb, if◌then◌else◌}
use php_duckdb.Prelude.Int.{ℤ, pos, negsuc}
use php_duckdb.Prelude.Decimal.{decimal}
use php_duckdb.Numeric.{Hugeint, is_negative}
use php_duckdb.Numeric.Signed.{
  IsHugeint, pattern_of, signed_decimal, hugeint_to_string-decimal, uhugeint_to_string-decimal,
}
use php_duckdb.Cells.Value.{long, string}
use php_duckdb.Cells.Scalar.{value, decode_hugeint, decode_uhugeint}

-- The number of a two's complement pattern of 128 bits.
abbrev pub signed_value : Hugeint → ℤ
signed_value v =
    if is_negative v.upper then negsuc (2 ^ 128 - 1 - pattern_of v) else pos (pattern_of v)

-- Whether the number is one of 64 bits with a sign.
abbrev pub fits_long : Hugeint → Bool
fits_long v =
    if is_negative v.upper
    then leb (2 ^ 128 - 2 ^ 63) (pattern_of v)
    else leb (pattern_of v) (2 ^ 63 - 1)

-- A HUGEINT of two 64-bit halves becomes a PHP int with the number of its two's complement pattern
-- exactly if that number has 64 bits with a sign, and otherwise the number's signed decimal notation;
-- the decoding never fails.
pub decode_hugeint-exact :
    (v : Hugeint)
    → IsHugeint v
    → decode_hugeint v
      ≡ (if fits_long v then value (long (signed_value v)) else value (string (signed_decimal v)))
unfolding decode_hugeint
decode_hugeint-exact v f = rw (hugeint_to_string-decimal v f) (ground arith)

-- A UHUGEINT of two 64-bit halves becomes a PHP int with its number exactly if that is below 2 ^ 63, and
-- otherwise its decimal notation; the decoding never fails.
pub decode_uhugeint-exact :
    (v : Hugeint)
    → IsHugeint v
    → decode_uhugeint v ≡ (
        if ltb (pattern_of v) (2 ^ 63)
        then value (long (pos (pattern_of v)))
        else value (string (decimal (pattern_of v))))
unfolding decode_uhugeint
decode_uhugeint-exact v f = rw (uhugeint_to_string-decimal v f) (ground arith)
