-- ===== src/Cells/Tests.antt =====
-- The cell decoders at concrete values.
use php_duckdb.Prelude.{
  ℕ, zero, suc, ◌+◌, ◌-◌, ◌*◌, ◌/◌, ◌%◌, ◌^◌, ◌≤◌, ◌<◌, ◌≡◌, ◌≢◌, ◌↔◌, ◌⊎◌, inl, inr, refl, sym, ap,
  ◌∙◌, Bool, true, false, not, ◌&&◌, ◌||◌, List, [], ◌∷◌, ◌++◌, append_assoc, append-nil, Option,
  none, some, arith, tests, Bytes, codes, length, take, drop, replicate, get_elem?, get_or, All,
  All-append, length-append, ltb, leb, ◌==◌, ==_iff, if◌then◌else◌, Bool-cases, Option-cases,
  lt→ltb, length-replicate, take-append, drop-append, replicate_shift, bytes_eq, has_prefix,
}
use php_duckdb.Prelude.Int.{pos, negsuc}
use php_duckdb.Numeric.{Hugeint}
use php_duckdb.Numeric.Signed.{IsHugeint}
use php_duckdb.Cells.Value.{long, string}
use php_duckdb.Cells.Scalar.{
  value, decode_hugeint, decode_uhugeint, decode_bit, uuid_to_string, scale_to_micros,
}
use php_duckdb.Cells.Wide.{decode_hugeint-exact, decode_uhugeint-exact}
use php_duckdb.Cells.Bits.{decode_bit-drop}
use php_duckdb.Cells.Uuid.{read_hex, uuid_to_string-read}
use php_duckdb.Cells.Scaling.{scale_to_micros-exact}
use php_duckdb.Cells.Value.{Value, null, next, name, array, nil, entry}
use php_duckdb.Cells.Scalar.{Calendar, midnight, bytes_cell, uint_cell, decode_cell}
use php_duckdb.Cells.Nested.{
  Column, scalars, lists, maps, varchar, decode_value, decode_column, decode_rows, decode_pairs,
  c_string,
}
use php_duckdb.Cells.Nested.Stored.{Holds, decode_value-Holds}
use php_duckdb.Cells.Nested.Limit.{levels}
use php_duckdb.Cells.Nested.Success.{IsDecodable, decode_value-succeeds}

abbrev minus_two : Hugeint
minus_two = record { upper = 2 ^ 64 - 1; lower = 2 ^ 64 - 2 }

abbrev large : Hugeint
large = record { upper = 1; lower = 7 }

minus_two-IsHugeint : IsHugeint minus_two
minus_two-IsHugeint = record { upper_fits = ground arith; lower_fits = ground arith }

large-IsHugeint : IsHugeint large
large-IsHugeint = record { upper_fits = ground arith; lower_fits = ground arith }

decode_hugeint-exact_example : decode_hugeint minus_two ≡ value (long (negsuc 1))
decode_hugeint-exact_example = decode_hugeint-exact minus_two minus_two-IsHugeint

decode_uhugeint-exact_example :
    decode_uhugeint large ≡ value (string (codes "18446744073709551623"))
unfolding php_duckdb.Prelude.Decimal.decimal
decode_uhugeint-exact_example = decode_uhugeint-exact large large-IsHugeint

decode_bit-drop_example : decode_bit (3 ∷ 5 ∷ 255 ∷ []) ≡ codes "0010111111111"
decode_bit-drop_example = decode_bit-drop 3 5 (255 ∷ []) (omega arith) (omega arith)

uuid_to_string-read_example : read_hex 0 (uuid_to_string large) ≡ (2 ^ 63 + 1) * 2 ^ 64 + 7
uuid_to_string-read_example = uuid_to_string-read large large-IsHugeint

scale_to_micros-exact_example : scale_to_micros (pos (2 ^ 62)) 1000 ≡ none
scale_to_micros-exact_example = scale_to_micros-exact (pos (2 ^ 62)) 999

text_of_uuid : uuid_to_string large ≡ codes "80000000-0000-0001-0000-000000000007"
unfolding uuid_to_string php_duckdb.Cells.Scalar.hex
text_of_uuid = refl

-- A calendar that is not asked in these examples.
abbrev calendar : Calendar
calendar = record {
  from_date = λ d. record { year = pos 1970; month = pos 1; day = pos 1 };
  is_finite_date = λ d. true;
  from_time = λ t. midnight;
  from_time_tz = λ t. (midnight, pos 0);
  from_timestamp = λ t. (record { year = pos 1970; month = pos 1; day = pos 1 }, midnight);
  is_finite = λ t. true;
  render = λ t. none;
  parses = λ s. true;
}

abbrev always : ℕ → Bool
always row = true

abbrev words : Column
words = scalars always (λ row. bytes_cell (if row == 0 then codes "a" else codes "b"))

abbrev numbers : Column
numbers =
    lists always (λ row. record { offset = 2 * row; length = 2 })
      (scalars (λ row. not (row == 3)) (λ row. uint_cell row))

-- One row of the type MAP(VARCHAR, UINTEGER[]).
abbrev dictionary : Column
dictionary = maps always (λ row. record { offset = 0; length = 2 }) varchar words numbers

abbrev dictionary_value : Value
dictionary_value = array (
    entry (name (codes "a")) (array (entry next (long (pos 0)) (entry next (long (pos 1)) nil)))
      (entry (name (codes "b")) (array (entry next (long (pos 2)) (entry next null nil))) nil))

decode_value-Holds_example : Holds calendar dictionary 0 dictionary_value
unfolding decode_column decode_rows decode_pairs decode_cell c_string
decode_value-Holds_example = decode_value-Holds calendar dictionary 0 dictionary_value refl

dictionary-IsDecodable : IsDecodable calendar dictionary
unfolding IsDecodable decode_cell
dictionary-IsDecodable = (
  λ row. (string (if row == 0 then codes "a" else codes "b"), refl),
  λ row. (long (pos row), refl),
)

decode_value-succeeds_example : (v : Value) × (decode_value calendar dictionary 0 ≡ value v)
unfolding levels
decode_value-succeeds_example =
    decode_value-succeeds calendar dictionary 0 (omega arith) dictionary-IsDecodable
