-- ===== src/Cells/Scalar.antt =====
-- `duckdb_decode_value` on the types that hold no other values.
use Prim.Native.Nat.{bit_and}
use php_duckdb.Prelude.{
  ℕ, zero, suc, ◌+◌, ◌-◌, ◌*◌, ◌/◌, ◌%◌, ◌^◌, Bool, true, ◌&&◌, [], ◌∷◌, ◌++◌, Option, none, some,
  Bytes, length, ltb, leb, ◌==◌, if◌then◌else◌,
}
use php_duckdb.Prelude.Int.{ℤ, pos, negsuc}
use php_duckdb.Prelude.Decimal.{decimal}
use php_duckdb.Numeric.{Hugeint, Unscaled, hugeint_to_string, uhugeint_to_string, decimal_render}
use php_duckdb.Cells.Value.{Value, null, boolean, long, double, string, interval}
use php_duckdb.Cells.Times.{
  Date, Time, with_micros, make_datetime, infinite, time_ns_text, time_tz_text, quotient,
}

abbrev pub long_max : ℕ
long_max = 2 ^ 63 - 1

-- A 64-bit pattern as a signed word.
abbrev pub to_signed : ℕ → ℤ
to_signed n = if ltb n (2 ^ 63) then pos n else negsuc (2 ^ 64 - 1 - n)

pub data Failure : Type 0 where
  nested_too_deep cannot_decode not_rendered : Failure
  external : Bytes → Failure

pub data Decoded : Type 0 where
  value : Value → Decoded
  failure : Failure → Decoded

-- A text that a conversion made; it is always there.
abbrev pub as_string : Option Bytes → Decoded
as_string none = failure not_rendered
as_string (some text) = value (string text)

unfoldable pub decode_ubigint : ℕ → Decoded
decode_ubigint n = if leb n long_max then value (long (pos n)) else value (string (decimal n))

unfoldable pub decode_hugeint : Hugeint → Decoded
decode_hugeint v =
    if v.upper == 0 && leb v.lower long_max
    then value (long (pos v.lower))
    else if v.upper == 2 ^ 64 - 1 && leb (2 ^ 63) v.lower
    then value (long (to_signed v.lower))
    else as_string (hugeint_to_string v)

unfoldable pub decode_uhugeint : Hugeint → Decoded
decode_uhugeint v =
    if v.upper == 0 && leb v.lower long_max
    then value (long (pos v.lower))
    else as_string (uhugeint_to_string v)

-- The bits of a byte below the place `k`, as long as there is room: their text, and the room that is
-- left.
unfoldable pub byte_bits : ℕ → ℕ → ℕ → Bytes × ℕ
byte_bits zero byte room = ([], room)
byte_bits (suc k) byte zero = ([], 0)
byte_bits (suc k) byte (suc room) =
    let (text, left) = byte_bits k byte room in
    ((if bit_and (byte / 2 ^ k) 1 == 1 then b'1' else b'0') ∷ text, left)

unfoldable pub rest_bits : Bytes → ℕ → Bytes
rest_bits [] room = []
rest_bits (byte ∷ bytes) room =
    let (text, left) = byte_bits 8 byte room in text ++ rest_bits bytes left

-- `duckdb_decode_bit`: the count of bits is a 32-bit word.
unfoldable pub decode_bit : Bytes → Bytes
decode_bit [] = []
decode_bit (padding ∷ []) = []
decode_bit (padding ∷ byte ∷ bytes) =
    let bit_count = (length (byte ∷ bytes) * 8 + 2 ^ 32 - padding) % 2 ^ 32 in
    let (text, left) = byte_bits (8 - padding) byte bit_count in text ++ rest_bits bytes left

abbrev pub hex_digit : ℕ → ℕ
hex_digit d = if ltb d 10 then b'0' + d else b'a' + (d - 10)

-- `%0<width>x` for a number of at most `width` digits.
unfoldable pub hex : ℕ → ℕ → Bytes
hex zero n = []
hex (suc width) n = hex width (n / 16) ++ (hex_digit (n % 16) ∷ [])

-- `upper ^ (1 << 63)`.
abbrev pub flip_top : ℕ → ℕ
flip_top upper = if ltb upper (2 ^ 63) then upper + 2 ^ 63 else upper - 2 ^ 63

-- `duckdb_uuid_to_string`.
unfoldable pub uuid_to_string : Hugeint → Bytes
uuid_to_string v =
    let upper = flip_top v.upper in
    hex 8 (upper / 2 ^ 32)
    ++ (b'-'
        ∷ (hex 4 (upper / 2 ^ 16 % 2 ^ 16)
            ++ (b'-'
                ∷ (hex 4 (upper % 2 ^ 16)
                    ++ (b'-'
                        ∷ (hex 4 (v.lower / 2 ^ 48)
                            ++ (b'-'
                                ∷ (hex 4 (v.lower / 2 ^ 32 % 2 ^ 16)
                                    ++ hex 8 (v.lower % 2 ^ 32)))))))))

-- `duckdb_timestamp_scale_to_micros` for a positive factor: the product, unless it leaves 64 bits.
unfoldable pub scale_to_micros : ℤ → ℕ → Option ℤ
scale_to_micros (pos n) factor = if ltb (long_max / factor) n then none else some (pos (n * factor))
scale_to_micros (negsuc n) factor =
    if ltb (2 ^ 63 / factor) (suc n) then none else some (negsuc (suc n * factor - 1))

-- What the decoder asks of the engine and of PHP: the parts of a date, of a time and of a timestamp,
-- which of them are finite, the text of a timestamp that is too large, and PHP's date parser.
pub record Calendar : Type 0 where
  pub from_date : ℤ → Date
  pub is_finite_date : ℤ → Bool
  pub from_time : ℤ → Time
  pub from_time_tz : ℕ → Time × ℤ
  pub from_timestamp : ℤ → Date × Time
  pub is_finite : ℤ → Bool
  pub render : ℤ → Option Bytes
  pub parses : Bytes → Bool

abbrev pub midnight : Time
midnight = record { hour = pos 0; minute = pos 0; second = pos 0; micros = pos 0 }

unfoldable pub decode_date : Calendar → ℤ → Value
decode_date c days =
    if c.is_finite_date days
    then make_datetime c.parses (c.from_date days) midnight
    else infinite days

-- `duckdb_make_datetime_from_micros`.
unfoldable pub datetime_from_micros : Calendar → ℤ → Bool → Value
datetime_from_micros c micros finite =
    let (d, t) = c.from_timestamp micros in
    if finite then make_datetime c.parses d t else infinite micros

-- The cells of TIMESTAMP_S and TIMESTAMP_MS.
unfoldable pub decode_scaled : Calendar → ℕ → ℤ → Decoded
decode_scaled c factor ticks =
    if c.is_finite ticks
    then (elim (scale_to_micros ticks factor) [
      | none ↦ as_string (c.render ticks)
      | some micros ↦ value (datetime_from_micros c micros true)
    ])
    else value (infinite ticks)

-- A cell of a column, by the type of the column. ENUM has the dictionary, BIGNUM and VARIANT what their
-- decoders return.
pub data Cell : Type 0 where
  bool_cell : Bool → Cell
  int_cell : ℤ → Cell
  uint_cell : ℕ → Cell
  ubigint_cell : ℕ → Cell
  hugeint_cell : Hugeint → Cell
  uhugeint_cell : Hugeint → Cell
  float_cell : ℕ → Cell
  decimal_cell : ℕ → Unscaled → Cell
  bytes_cell : Bytes → Cell
  bit_cell : Bytes → Cell
  uuid_cell : Hugeint → Cell
  enum_cell : (ℕ → Option Bytes) → ℕ → Cell
  date_cell : ℤ → Cell
  time_cell : ℤ → Cell
  time_tz_cell : ℕ → Cell
  time_ns_cell : ℤ → Cell
  timestamp_cell : ℤ → Cell
  timestamp_s_cell : ℤ → Cell
  timestamp_ms_cell : ℤ → Cell
  timestamp_ns_cell : ℤ → Cell
  interval_cell : ℤ → ℤ → ℤ → Cell
  external_cell : Decoded → Cell
  sqlnull_cell : Cell
  unknown_cell : Cell

abbrev pub enum_value : Option Bytes → Value
enum_value none = null
enum_value (some text) = string text

-- `duckdb_decode_value` on a valid cell.
unfoldable pub decode_cell : Calendar → Cell → Decoded
decode_cell c (bool_cell b) = value (boolean b)
decode_cell c (int_cell n) = value (long n)
decode_cell c (uint_cell n) = value (long (pos n))
decode_cell c (ubigint_cell n) = decode_ubigint n
decode_cell c (hugeint_cell v) = decode_hugeint v
decode_cell c (uhugeint_cell v) = decode_uhugeint v
decode_cell c (float_cell bits) = value (double bits)
decode_cell c (decimal_cell scale v) = as_string (decimal_render scale v)
decode_cell c (bytes_cell text) = value (string text)
decode_cell c (bit_cell stored) = value (string (decode_bit stored))
decode_cell c (uuid_cell v) = value (string (uuid_to_string v))
decode_cell c (enum_cell dictionary i) = value (enum_value (dictionary i))
decode_cell c (date_cell days) = value (decode_date c days)
decode_cell c (time_cell t) = value (string (with_micros (c.from_time t)))
decode_cell c (time_tz_cell t) =
    let (time, offset) = c.from_time_tz t in value (string (time_tz_text time offset))
decode_cell c (time_ns_cell ns) = value (string (time_ns_text ns))
decode_cell c (timestamp_cell micros) = value (datetime_from_micros c micros (c.is_finite micros))
decode_cell c (timestamp_s_cell ticks) = decode_scaled c 1000000 ticks
decode_cell c (timestamp_ms_cell ticks) = decode_scaled c 1000 ticks
decode_cell c (timestamp_ns_cell nanos) =
    value (datetime_from_micros c (quotient nanos 1000) (c.is_finite nanos))
decode_cell c (interval_cell months days micros) = value (interval months days micros)
decode_cell c (external_cell outcome) = outcome
decode_cell c sqlnull_cell = value null
decode_cell c unknown_cell = failure cannot_decode
