-- ===== src/Cells/Value.antt =====
-- The PHP values that the decoder makes.
use php_duckdb.Prelude.{ℕ, Bool, Bytes}
use php_duckdb.Prelude.Int.{ℤ}

-- Where a put goes in a PHP array: behind its last integer key, at an integer, or at a C string, of
-- which PHP takes the decimal ones for integers.
pub data Key : Type 0 where
  next : Key
  index : ℤ → Key
  name : Bytes → Key

-- A double stands by its bits, a `DateTimeImmutable` by the text it was made from, an `Interval` by its
-- months, days and microseconds, an array by the puts that fill it, in their order.
mutual
  pub data Value : Type 0 where
    null : Value
    boolean : Bool → Value
    long : ℤ → Value
    double : ℕ → Value
    string : Bytes → Value
    datetime : Bytes → Value
    interval : ℤ → ℤ → ℤ → Value
    array : Entries → Value

  pub data Entries : Type 0 where
    nil : Entries
    entry : Key → Value → Entries → Entries
