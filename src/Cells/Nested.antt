-- ===== src/Cells/Nested.antt =====
-- The cells that hold other values: lists, arrays, structs, maps and unions of src/result.cpp.
pub mod Stored
pub mod Limit
pub mod Success
use php_duckdb.Prelude.{
  ℕ, zero, suc, ◌+◌, ◌*◌, Bool, true, false, List, [], ◌∷◌, Option, none, some, Bytes, codes, leb,
  ◌==◌, if◌then◌else◌,
}
use php_duckdb.Cells.Value.{
  Key, next, index, name, Value, null, long, string, array, Entries, nil, entry,
}
use php_duckdb.Cells.Scalar.{
  Calendar, Cell, decode_cell, Decoded, value, failure, Failure, nested_too_deep,
}

-- A `duckdb_list_entry`.
pub record ListEntry : Type 0 where
  pub offset : ℕ
  pub length : ℕ

-- The types of map keys that the decoder tells apart.
pub data KeyType : Type 0 where
  tinyint smallint integer bigint utinyint usmallint uinteger ubigint varchar enum other : KeyType

abbrev pub has_scalar_keys : KeyType → Bool
has_scalar_keys other = false
has_scalar_keys tinyint = true
has_scalar_keys smallint = true
has_scalar_keys integer = true
has_scalar_keys bigint = true
has_scalar_keys utinyint = true
has_scalar_keys usmallint = true
has_scalar_keys uinteger = true
has_scalar_keys ubigint = true
has_scalar_keys varchar = true
has_scalar_keys enum = true

-- A vector with its logical type. Each tells which of its rows are valid. A struct's child may be
-- without a name.
mutual
  pub data Column : Type 0 where
    scalars : (ℕ → Bool) → (ℕ → Cell) → Column
    lists : (ℕ → Bool) → (ℕ → ListEntry) → Column → Column
    arrays : (ℕ → Bool) → ℕ → Column → Column
    structs : (ℕ → Bool) → Members → Column
    maps : (ℕ → Bool) → (ℕ → ListEntry) → KeyType → Column → Column → Column
    unions : (ℕ → Bool) → (ℕ → ℕ) → Members → Column

  pub data Members : Type 0 where
    no_member : Members
    member : Option Bytes → Column → Members → Members

-- The array that a loop has filled, or what stopped it.
pub data Filled : Type 0 where
  filled : Entries → Filled
  stopped : Failure → Filled

abbrev pub as_array : Filled → Decoded
as_array (filled es) = value (array es)
as_array (stopped e) = failure e

-- One turn of a loop: the element, and what the turns after it fill.
abbrev pub push : Key → Decoded → Filled → Filled
push key (failure e) rest = stopped e
push key (value v) (stopped e) = stopped e
push key (value v) (filled es) = filled (entry key v es)

abbrev pub nullable : Bool → Decoded → Decoded
nullable valid decoded = if valid then decoded else value null

-- The check of `duckdb_decode_child`.
abbrev pub within : ℕ → ℕ → Decoded → Decoded
within limit depth decoded = if leb limit depth then failure nested_too_deep else decoded

-- The loops of lists and arrays, from a row of the child vector on.
unfoldable pub decode_rows : (ℕ → Decoded) → ℕ → ℕ → Filled
decode_rows f row zero = filled nil
decode_rows f row (suc count) = push next (f row) (decode_rows f (row + 1) count)

-- A C string ends at its first NUL.
unfoldable pub c_string : Bytes → Bytes
c_string [] = []
c_string (c ∷ s) = let rest = c_string s in if c == 0 then [] else c ∷ rest

abbrev pub map_key : Value → Key
map_key (long n) = index n
map_key (string s) = name (c_string s)
map_key v = name []

abbrev pub pair : Value → Value → Value
pair k v = array (entry (name (codes "key")) k (entry (name (codes "value")) v nil))

abbrev pub push_pair : Bool → Decoded → Decoded → Filled → Filled
push_pair scalar_keys (failure e) v rest = stopped e
push_pair scalar_keys (value k) (failure e) rest = stopped e
push_pair scalar_keys (value k) (value v) rest =
    if scalar_keys then push (map_key k) (value v) rest else push next (value (pair k v)) rest

unfoldable pub decode_pairs : Bool → (ℕ → Decoded) → (ℕ → Decoded) → ℕ → ℕ → Filled
decode_pairs scalar_keys f g row zero = filled nil
decode_pairs scalar_keys f g row (suc count) =
    push_pair scalar_keys (f row) (g row) (decode_pairs scalar_keys f g (row + 1) count)

abbrev pub member_name : Option Bytes → Bytes
member_name none = codes "?"
member_name (some text) = text

-- `duckdb_decode_value` below a limit, at a depth; `decode_nth` is the member that a tag selects.
unfoldable mutual
  pub decode_column : Calendar → ℕ → Column → ℕ → ℕ → Decoded
  decode_column c limit (scalars valid cells) depth row =
      nullable (valid row) (decode_cell c (cells row))
  decode_column c limit (lists valid entries child) depth row = nullable (valid row) (
      as_array (
        decode_rows (λ r. within limit depth (decode_column c limit child (suc depth) r))
          (entries row).offset (entries row).length))
  decode_column c limit (arrays valid size child) depth row = nullable (valid row) (
      as_array (
        decode_rows (λ r. within limit depth (decode_column c limit child (suc depth) r))
          (row * size) size))
  decode_column c limit (structs valid members) depth row =
      nullable (valid row) (as_array (decode_members c limit members depth row))
  decode_column c limit (maps valid entries key keys values) depth row = nullable (valid row) (
      as_array (
        decode_pairs (has_scalar_keys key)
          (λ r. within limit depth (decode_column c limit keys (suc depth) r))
          (λ r. within limit depth (decode_column c limit values (suc depth) r))
          (entries row).offset (entries row).length))
  decode_column c limit (unions valid tags members) depth row =
      nullable (valid row) (decode_nth c limit members (tags row) depth row)

  pub decode_members : Calendar → ℕ → Members → ℕ → ℕ → Filled
  decode_members c limit no_member depth row = filled nil
  decode_members c limit (member label child members) depth row =
      push (name (member_name label))
        (within limit depth (decode_column c limit child (suc depth) row))
        (decode_members c limit members depth row)

  pub decode_nth : Calendar → ℕ → Members → ℕ → ℕ → ℕ → Decoded
  decode_nth c limit no_member tag depth row = value null
  decode_nth c limit (member label child members) zero depth row =
      within limit depth (decode_column c limit child (suc depth) row)
  decode_nth c limit (member label child members) (suc tag) depth row =
      decode_nth c limit members tag depth row

abbrev pub max_nesting_depth : ℕ
max_nesting_depth = 512

-- A cell of a result.
abbrev pub decode_value : Calendar → Column → ℕ → Decoded
decode_value c column row = decode_column c max_nesting_depth column 0 row
