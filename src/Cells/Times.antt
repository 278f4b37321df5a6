-- ===== src/Cells/Times.antt =====
-- The texts of dates and times.
use php_duckdb.Prelude.{
  ℕ, zero, suc, ◌-◌, ◌/◌, ◌%◌, Bool, false, ◌∷◌, ◌++◌, Bytes, codes, length, replicate, ltb, ◌==◌,
  if◌then◌else◌,
}
use php_duckdb.Prelude.Int.{ℤ, pos, negsuc}
use php_duckdb.Prelude.Decimal.{decimal}
use php_duckdb.Cells.Value.{Value, string, datetime}

abbrev pub pad : ℕ → Bytes → Bytes
pad width digits = replicate (width - length digits) b'0' ++ digits

-- `%0<width>d`.
abbrev pub padded_int : ℕ → ℤ → Bytes
padded_int width (pos n) = pad width (decimal n)
padded_int width (negsuc n) = b'-' ∷ pad (width - 1) (decimal (suc n))

abbrev pub is_zero : ℤ → Bool
is_zero (pos n) = n == 0
is_zero (negsuc n) = false

-- The parts of a `duckdb_date_struct` and of a `duckdb_time_struct`.
pub record Date : Type 0 where
  pub year : ℤ
  pub month : ℤ
  pub day : ℤ

pub record Time : Type 0 where
  pub hour : ℤ
  pub minute : ℤ
  pub second : ℤ
  pub micros : ℤ

-- `%02d:%02d:%02d`.
abbrev pub clock : ℤ → ℤ → ℤ → Bytes
clock hour minute second =
    padded_int 2 hour ++ (b':' ∷ (padded_int 2 minute ++ (b':' ∷ padded_int 2 second)))

abbrev pub with_micros : Time → Bytes
with_micros t =
    if is_zero t.micros
    then clock t.hour t.minute t.second
    else clock t.hour t.minute t.second ++ (b'.' ∷ padded_int 6 t.micros)

abbrev pub date_text : Date → Bytes
date_text d = padded_int 4 d.year ++ (b'-' ∷ (padded_int 2 d.month ++ (b'-' ∷ padded_int 2 d.day)))

-- `duckdb_make_datetime`; `parses` says which texts PHP's date parser takes.
unfoldable pub make_datetime : (Bytes → Bool) → Date → Time → Value
make_datetime parses d t =
    let text = date_text d ++ (b' ' ∷ (with_micros t ++ codes " UTC")) in
    if parses text then datetime text else string text

abbrev pub is_positive : ℤ → Bool
is_positive (pos n) = ltb 0 n
is_positive (negsuc n) = false

abbrev pub infinite : ℤ → Value
infinite n = if is_positive n then string (codes "infinity") else string (codes "-infinity")

-- Division and remainder of signed words, which round towards zero.
abbrev pub negated : ℕ → ℤ
negated zero = pos 0
negated (suc n) = negsuc n

abbrev pub quotient : ℤ → ℕ → ℤ
quotient (pos n) k = pos (n / k)
quotient (negsuc n) k = negated (suc n / k)

abbrev pub remainder : ℤ → ℕ → ℤ
remainder (pos n) k = pos (n % k)
remainder (negsuc n) k = negated (suc n % k)

-- The text of a TIME_NS cell.
unfoldable pub time_ns_text : ℤ → Bytes
time_ns_text ns =
    let text =
      clock (quotient ns 3600000000000) (remainder (quotient ns 60000000000) 60)
        (remainder (quotient ns 1000000000) 60) in
    let fraction = remainder ns 1000000000 in
    if is_zero fraction then text else text ++ (b'.' ∷ padded_int 9 fraction)

abbrev pub magnitude : ℤ → ℕ
magnitude (pos n) = n
magnitude (negsuc n) = suc n

abbrev pub sign : ℤ → ℕ
sign (pos n) = b'+'
sign (negsuc n) = b'-'

-- The text of a TIME_TZ cell: the time and the seconds east of UTC.
unfoldable pub time_tz_text : Time → ℤ → Bytes
time_tz_text t offset =
    let seconds = magnitude offset in
    let text =
      with_micros t
      ++ (sign offset
          ∷ (padded_int 2 (pos (seconds / 3600))
              ++ (b':' ∷ padded_int 2 (pos (seconds / 60 % 60))))) in
    if seconds % 60 == 0 then text else text ++ (b':' ∷ padded_int 2 (pos (seconds % 60)))
