-- ===== src/Variant/Decode.antt =====
-- `Decoder` and `duckdb_decode_variant` of src/variant_decode.cpp: a VARIANT cell as JSON.
use php_duckdb.Prelude.{
  ℕ, ◌+◌, ◌-◌, ◌*◌, ◌%◌, ◌^◌, Bool, false, not, ◌&&◌, ◌||◌, [], ◌∷◌, Option, none, some, Bytes,
  length, drop, get_or, ltb, leb, ◌==◌, if◌then◌else◌,
}
use php_duckdb.Prelude.Decimal.{decimal}
use php_duckdb.Variant.{
  Reader, Message, Read, done, invalid, read_unsigned, varint, missing_vector_type, null_list,
  missing_list, bad_list_range, bad_index, bad_layout, null_value, missing_value, missing_blob,
  null_blob, unconstructed, unrendered, bad_bignum_length, bad_bignum_header, bad_decimal,
}
use php_duckdb.Variant.Real.{Floats}

-- What a function gives: a value, or the exception of `invalid`.
pub data Result (A : Type 0) : Type 0 where
  ok : A → Result A
  failed : Message → Result A

abbrev pub bind : {A B : Type 0} → Result A → (A → Result B) → Result B
bind (ok a) f = f a
bind (failed m) f = failed m

abbrev pub from : {A B : Type 0} → Read A → (A → Reader → Result B) → Result B
from (done a r) f = f a r
from (invalid m) f = failed m

-- What the engine says of a vector of cells: whether it is there with the type expected of it, which rows are
-- valid, and its data, unless that is missing.
pub record Column (A : Type 0) : Type 0 where
  pub fits : Bool
  pub is_valid : ℕ → Bool
  pub cells : Option (ℕ → A)

pub record Entry : Type 0 where
  pub offset : ℕ
  pub extent : ℕ

-- A vector of lists, with the size of its child and whether that has the type expected of it.
pub record Lists : Type 0 where
  pub column : Column Entry
  pub size : ℕ
  pub child_fits : Bool

-- A vector of VARIANT cells. Whether the children of `children` and `values` are structs of two is said beside them.
pub record Vector : Type 0 where
  pub keys : Lists
  pub children : Lists
  pub values : Lists
  pub key_names : Column Bytes
  pub children_layout : Bool
  pub keys_index : Column ℕ
  pub values_index : Column ℕ
  pub values_layout : Bool
  pub type_id : Column ℕ
  pub byte_offset : Column ℕ
  pub blob : Column Bytes

-- `require_type`.
abbrev pub require_type : Bool → Result Unit
require_type fits = if fits then ok tt else failed missing_vector_type

abbrev pub list_range : Lists → ℕ → Option (ℕ → Entry) → Result Entry
list_range l row none = failed missing_list
list_range l row (some entries) =
    let entry = entries row in
    if ltb l.size entry.offset || ltb (l.size - entry.offset) entry.extent
    then failed bad_list_range
    else bind (require_type l.child_fits) (λ u. ok entry)

-- The constructor of `List`.
abbrev pub list_at : Lists → ℕ → Result Entry
list_at l row =
    bind (require_type l.column.fits) (λ u.
      if not (l.column.is_valid row) then failed null_list else list_range l row l.column.cells)

-- `List::index`.
abbrev pub index : Entry → ℕ → Result ℕ
index entry relative =
    if leb entry.extent relative then failed bad_index else ok (entry.offset + relative)

-- `field`, on a child that is a struct of two or not.
abbrev pub field : {A : Type 0} → Bool → Column A → Result Unit
field layout column = if not layout then failed bad_layout else require_type column.fits

abbrev pub cell_of : {A : Type 0} → ℕ → Option (ℕ → A) → Result A
cell_of row none = failed missing_value
cell_of row (some cells) = ok (cells row)

-- `cell`.
abbrev pub cell : {A : Type 0} → Column A → ℕ → Result A
cell column row = if not (column.is_valid row) then failed null_value else cell_of row column.cells

abbrev pub blob_of : Column Bytes → ℕ → Option (ℕ → Bytes) → Result Reader
blob_of column row none = failed missing_blob
blob_of column row (some cells) =
    if not (column.is_valid row)
    then failed null_blob
    else ok (record { bytes = cells row; position = 0 })

-- `Decoder::payload`.
abbrev pub payload : Column Bytes → ℕ → Result Reader
payload column row = bind (require_type column.fits) (λ u. blob_of column row column.cells)

-- `Decoder`, without the indexes that are active.
pub record Decoder : Type 0 where
  pub vector : Vector
  pub keys : Entry
  pub children : Entry
  pub values : Entry
  pub blob : Reader

-- The constructor of `Decoder`.
unfoldable pub decoder : Vector → ℕ → Result Decoder
decoder v row = bind (list_at v.keys row) (λ keys. bind (list_at v.children row) (λ children.
    bind (list_at v.values row) (λ values. bind (field v.children_layout v.keys_index) (λ u1.
      bind (field v.children_layout v.values_index) (λ u2.
        bind (field v.values_layout v.type_id) (λ u3.
          bind (field v.values_layout v.byte_offset) (λ u4. bind (payload v.blob row) (λ blob.
            ok (record {
              vector = v;
              keys = keys;
              children = children;
              values = values;
              blob = blob;
            })))))))))

-- The values of dates and times, each of so many bytes.
pub data Moment : Type 0 where
  date time time_ns timestamp_s timestamp_ms timestamp timestamp_ns : Moment
  time_tz timestamp_tz interval timestamp_tz_ns : Moment

abbrev pub moment_bytes : Moment → ℕ
moment_bytes date = 4
moment_bytes interval = 16
moment_bytes _ = 8

-- The values that the engine makes from the parts of a payload; numbers by their bits.
pub data Scalar : Type 0 where
  hugeint uhugeint uuid : ℕ → Scalar
  a_decimal : ℕ → ℕ → ℕ → Scalar
  blob_value bit_value : Bytes → Scalar
  bignum_value : Bytes → Bool → Scalar
  moment : Moment → ℕ → Scalar

pub data EngineText : Type 0 where
  not_made not_rendered : EngineText
  rendered : Bytes → EngineText

-- What the engine makes of values, and numbers of 32 bits as numbers of 64.
pub record Engine : Type 0 where
  pub text_of : Scalar → EngineText
  pub floats : Floats
  pub widen : ℕ → ℕ

abbrev pub made : EngineText → Result Bytes
made not_made = failed unconstructed
made not_rendered = failed unrendered
made (rendered text) = ok text

-- `scalar`.
abbrev pub scalar : Engine → Scalar → Result Bytes
scalar e v = made (e.text_of v)

-- `std::to_string` of a signed number of so many bytes.
abbrev pub signed_text : ℕ → ℕ → Bytes
signed_text width n =
    if ltb n (2 ^ (8 * width - 1)) then decimal n else b'-' ∷ decimal (2 ^ (8 * width) - n)

-- The bits of a signed number of so many bytes as a number of 128 bits.
abbrev pub sign_extended : ℕ → ℕ → ℕ
sign_extended width n = if ltb n (2 ^ (8 * width - 1)) then n else 2 ^ 128 - 2 ^ (8 * width) + n

abbrev pub real_text : Option Bytes → Result Bytes
real_text none = failed unrendered
real_text (some text) = ok text

abbrev pub starts_minus : Bytes → Bool
starts_minus [] = false
starts_minus (c ∷ s) = c == b'-'

-- The digit in front of the point, which the engine leaves out when all digits stand behind it.
abbrev pub with_leading_zero : Bytes → Bytes
with_leading_zero text = if starts_minus text then b'-' ∷ b'0' ∷ drop 1 text else b'0' ∷ text

abbrev pub decimal_bytes : ℕ → ℕ
decimal_bytes width =
    if ltb 18 width then 16 else if ltb 9 width then 8 else if ltb 4 width then 4 else 2

-- The case of decimals.
unfoldable pub decimal_text : Engine → Reader → Result Bytes
decimal_text e r = from (varint r) (λ width r1. from (varint r1) (λ scale r2.
    if width == 0 || (ltb 38 width || ltb width scale)
    then failed bad_decimal
    else from (read_unsigned (decimal_bytes width) r2) (λ n r3.
      bind (scalar e (a_decimal width scale (sign_extended (decimal_bytes width) n)))
        (λ text. ok (if width == scale then with_leading_zero text else text)))))

abbrev pub magnitude : Bool → ℕ → ℕ
magnitude negative b = if negative then 255 - b else b

abbrev pub magnitudes : Bool → Bytes → Bytes
magnitudes negative [] = []
magnitudes negative (b ∷ bs) = magnitude negative b ∷ magnitudes negative bs

-- `Decoder::bignum`.
unfoldable pub bignum : Engine → Bytes → Result Bytes
bignum e bytes =
    let size = length bytes in
    let negative = ltb (get_or bytes 0 0) 128 in
    let byte : ℕ → ℕ = λ i. magnitude negative (get_or bytes i 0) in
    let declared = byte 0 % 128 * 2 ^ 16 + byte 1 * 2 ^ 8 + byte 2 in
    if ltb size 4 || ltb 0x7fffff (size - 3)
    then failed bad_bignum_length
    else if not (declared == size - 3)
        || (ltb 1 declared && byte 3 == 0 || (negative && declared == 1) && byte 3 == 0)
    then failed bad_bignum_header
    else scalar e (bignum_value (magnitudes negative (drop 3 bytes)) negative)
