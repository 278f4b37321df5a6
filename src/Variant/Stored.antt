-- ===== src/Variant/Stored.antt =====
-- VARIANT values as trees, how a cell stores them, and their texts.
use php_duckdb.Prelude.{
  ℕ, suc, ◌+◌, ◌-◌, ◌*◌, ◌%◌, ◌^◌, ◌≤◌, ◌<◌, ◌≡◌, Bool, true, false, List, [], ◌∷◌, ◌++◌, Option,
  some, Bytes, codes, length, drop, get_elem?, ◌==◌, if◌then◌else◌,
}
use php_duckdb.Prelude.Int.{ℤ, pos, negsuc}
use php_duckdb.Prelude.Decimal.{decimal}
use php_duckdb.Variant.Geometry.Reads.{bytes_of, joined}
use php_duckdb.Variant.Varint.{leb128}
use php_duckdb.Variant.Quote.{quote}
use php_duckdb.Variant.Geometry.{Flags, maximum_depth}
use php_duckdb.Variant.Geometry.Encode.{Geometry, stored, text_of, IsStorable}
use php_duckdb.Variant.Real.{real}
use php_duckdb.Variant.Decode.{
  Column, Decoder, Engine, rendered, a_decimal, decimal_bytes, with_leading_zero, hugeint, uhugeint,
  uuid, blob_value, bit_value, moment, Moment, moment_bytes,
}
use php_duckdb.Variant.Render.{
  Tag, hugeint_tag, uhugeint_tag, float_tag, double_tag, blob_tag, uuid_tag, bit_tag, decimal_tag,
  geometry_tag, moment_tag, null_tag, true_tag, false_tag, signed_tag, unsigned_tag, varchar_tag,
  array_tag, object_tag, tags, is_active, Fields,
}
use php_duckdb.Variant.Fields.{Canonical}

-- Values, with the texts that the engine or the printer of floating-point numbers has for those that they print.
mutual
  pub data Json : Type 0 where
    a_null : Json
    a_boolean : Bool → Json
    a_natural : ℕ → Json
    an_integer : ℤ → Json
    a_printed_number : Bytes → Json
    a_string : Bytes → Json
    an_array : Items → Json
    an_object : Members → Json

  pub data Items : Type 0 where
    no_items : Items
    an_item : Json → Items → Items

  pub data Members : Type 0 where
    no_members : Members
    a_member : Bytes → Json → Members → Members

abbrev pub integer_text : ℤ → Bytes
integer_text (pos n) = decimal n
integer_text (negsuc n) = b'-' ∷ decimal (suc n)

abbrev pub boolean_text : Bool → Bytes
boolean_text b = if b then codes "true" else codes "false"

abbrev pub pairs : Fields → List Bytes
pairs [] = []
pairs ((k, t) ∷ fields) = (quote k ++ (b':' ∷ t)) ∷ pairs fields

-- The text of a value as JSON. An object shows its keys in order, each once, with the last of its values.
mutual
  pub data Prints : Json → Bytes → Type 0 where
    null_text : Prints a_null (codes "null")
    bool_text : (b : Bool) → Prints (a_boolean b) (boolean_text b)
    natural_text : (n : ℕ) → Prints (a_natural n) (decimal n)
    int_text : (z : ℤ) → Prints (an_integer z) (integer_text z)
    printed_text : (t : Bytes) → Prints (a_printed_number t) t
    string_text : (s : Bytes) → Prints (a_string s) (quote s)
    array_text :
        {vs : Items} {ts : List Bytes}
        → ItemsPrint vs ts
        → Prints (an_array vs) (b'[' ∷ (joined (codes ",") ts ++ (b']' ∷ [])))
    object_text :
        {ms : Members} {fields : Fields} (sorted : Fields)
        → MembersPrint ms fields
        → Canonical fields sorted
        → Prints (an_object ms) (b'{' ∷ (joined (codes ",") (pairs sorted) ++ (b'}' ∷ [])))

  pub data ItemsPrint : Items → List Bytes → Type 0 where
    none_printed : ItemsPrint no_items []
    item_printed :
        {v : Json} {vs : Items} {t : Bytes} {ts : List Bytes}
        → Prints v t
        → ItemsPrint vs ts
        → ItemsPrint (an_item v vs) (t ∷ ts)

  pub data MembersPrint : Members → Fields → Type 0 where
    no_member_printed : MembersPrint no_members []
    member_printed :
        {k t : Bytes} {v : Json} {ms : Members} {fields : Fields}
        → Prints v t
        → MembersPrint ms fields
        → MembersPrint (a_member k v ms) ((k, t) ∷ fields)

-- A valid cell that holds a value.
abbrev pub IsCell : {A : Type 0} → Column A → ℕ → A → Type 0
IsCell {A = A} column row a =
    (column.is_valid row ≡ true) × ((cells : ℕ → A) × (column.cells ≡ some cells) × (cells row ≡ a))

-- A signed number of so many bytes, in two's complement.
abbrev pub FitsSigned : ℕ → ℤ → Type 0
FitsSigned width (pos n) = n < 2 ^ (8 * width - 1)
FitsSigned width (negsuc n) = n < 2 ^ (8 * width - 1)

abbrev pub complement : ℕ → ℤ → ℕ
complement width (pos n) = n
complement width (negsuc n) = 2 ^ (8 * width) - suc n

-- The number of children and the first of them.
pub data ChildrenAt (d : Decoder) : Bytes → ℕ → ℕ → Type 0 where
  no_children : (rest : Bytes) → ChildrenAt d (leb128 5 0 ++ rest) 0 0
  some_children :
      {count first : ℕ} (rest : Bytes)
      → suc count < 2 ^ 32
      → first < 2 ^ 32
      → first + suc count ≤ d.children.extent
      → ChildrenAt d (leb128 5 (suc count) ++ (leb128 5 first ++ rest)) (suc count) first

-- The value at an index, with so many levels and within the values at the active indexes, none of which is it; what
-- the payload has for a tag; and the children from one on.
abbrev pub nesting : Geometry → ℕ
nesting g = php_duckdb.Variant.Geometry.Encode.levels g

mutual
  pub data HoldsAt (e : Engine) (d : Decoder) : ℕ → List ℕ → ℕ → Json → Type 0 where
    holds :
        {levels i tag offset : ℕ} {active : List ℕ} {v : Json}
        → is_active i active ≡ false
        → i < d.values.extent
        → IsCell d.vector.type_id (d.values.offset + i) tag
        → IsCell d.vector.byte_offset (d.values.offset + i) offset
        → offset ≤ length d.blob.bytes
        → BodyAt e d levels (i ∷ active) (get_elem? tags tag) (drop offset d.blob.bytes) v
        → HoldsAt e d (suc levels) active i v

  pub data BodyAt (e : Engine) (d : Decoder) : ℕ → List ℕ → Option Tag → Bytes → Json → Type 0 where
    null_body :
        {levels : ℕ} {active : List ℕ} {bytes : Bytes}
        → BodyAt e d levels active (some null_tag) bytes a_null
    true_body :
        {levels : ℕ} {active : List ℕ} {bytes : Bytes}
        → BodyAt e d levels active (some true_tag) bytes (a_boolean true)
    false_body :
        {levels : ℕ} {active : List ℕ} {bytes : Bytes}
        → BodyAt e d levels active (some false_tag) bytes (a_boolean false)
    natural_body :
        {levels width n : ℕ} {active : List ℕ} (rest : Bytes)
        → n < 256 ^ width
        → BodyAt e d levels active
            (some (unsigned_tag width))
            (bytes_of width n ++ rest)
            (a_natural n)
    integer_body :
        {levels width : ℕ} {z : ℤ} {active : List ℕ} (rest : Bytes)
        → 0 < width
        → FitsSigned width z
        → BodyAt e d levels active
            (some (signed_tag width))
            (bytes_of width (complement width z) ++ rest)
            (an_integer z)
    string_body :
        {levels : ℕ} {active : List ℕ} {s : Bytes} (rest : Bytes)
        → length s < 2 ^ 32
        → BodyAt e d levels active
            (some varchar_tag)
            (leb128 5 (length s) ++ (s ++ rest))
            (a_string s)
    hugeint_body :
        {levels : ℕ} {active : List ℕ} {t : Bytes} (n : ℕ) (rest : Bytes)
        → n < 256 ^ 16
        → e.text_of (hugeint n) ≡ rendered t
        → BodyAt e d levels active (some hugeint_tag) (bytes_of 16 n ++ rest) (a_printed_number t)
    uhugeint_body :
        {levels : ℕ} {active : List ℕ} {t : Bytes} (n : ℕ) (rest : Bytes)
        → n < 256 ^ 16
        → e.text_of (uhugeint n) ≡ rendered t
        → BodyAt e d levels active (some uhugeint_tag) (bytes_of 16 n ++ rest) (a_printed_number t)
    float_body :
        {levels : ℕ} {active : List ℕ} {t : Bytes} (n : ℕ) (rest : Bytes)
        → n < 256 ^ 4
        → real e.floats false (e.widen n) ≡ some t
        → BodyAt e d levels active (some float_tag) (bytes_of 4 n ++ rest) (a_printed_number t)
    double_body :
        {levels : ℕ} {active : List ℕ} {t : Bytes} (n : ℕ) (rest : Bytes)
        → n < 256 ^ 8
        → real e.floats false n ≡ some t
        → BodyAt e d levels active (some double_tag) (bytes_of 8 n ++ rest) (a_printed_number t)
    blob_body :
        {levels : ℕ} {active : List ℕ} {t : Bytes} (s rest : Bytes)
        → length s < 2 ^ 32
        → e.text_of (blob_value s) ≡ rendered t
        → BodyAt e d levels active (some blob_tag) (leb128 5 (length s) ++ (s ++ rest)) (a_string t)
    bit_body :
        {levels : ℕ} {active : List ℕ} {t : Bytes} (padding c : ℕ) (s rest : Bytes)
        → padding < 8
        → suc (suc (length s)) < 2 ^ 32
        → e.text_of (bit_value (padding ∷ c ∷ s)) ≡ rendered t
        → BodyAt e d levels active
            (some bit_tag)
            (leb128 5 (suc (suc (length s))) ++ ((padding ∷ c ∷ s) ++ rest))
            (a_string t)
    uuid_body :
        {levels : ℕ} {active : List ℕ} {t : Bytes} (n : ℕ) (rest : Bytes)
        → n < 256 ^ 16
        → e.text_of (uuid ((n + 2 ^ 127) % 2 ^ 128)) ≡ rendered t
        → BodyAt e d levels active (some uuid_tag) (bytes_of 16 n ++ rest) (a_string t)
    moment_body :
        {levels : ℕ} {active : List ℕ} {m : Moment} {t : Bytes} (n : ℕ) (rest : Bytes)
        → n < 256 ^ moment_bytes m
        → e.text_of (moment m n) ≡ rendered t
        → BodyAt e d levels active
            (some (moment_tag m))
            (bytes_of (moment_bytes m) n ++ rest)
            (a_string t)
    decimal_body :
        {levels : ℕ} {active : List ℕ} {t : Bytes} (width scale : ℕ) (z : ℤ) (rest : Bytes)
        → 0 < width
        → width ≤ 38
        → scale ≤ width
        → FitsSigned (decimal_bytes width) z
        → e.text_of (a_decimal width scale (complement 16 z)) ≡ rendered t
        → BodyAt e d levels active
            (some decimal_tag)
            (leb128 5 width
              ++ (leb128 5 scale
                  ++ (bytes_of (decimal_bytes width) (complement (decimal_bytes width) z) ++ rest)))
            (a_printed_number (if width == scale then with_leading_zero t else t))
    geometry_body :
        {levels : ℕ} {active : List ℕ} (flags : Flags) (g : Geometry) (rest : Bytes)
        → length (stored flags g) < 2 ^ 32
        → nesting g ≤ maximum_depth
        → IsStorable e.floats flags g
        → BodyAt e d levels active
            (some geometry_tag)
            (leb128 5 (length (stored flags g)) ++ (stored flags g ++ rest))
            (a_string (text_of e.floats flags g))
    array_body :
        {levels count first : ℕ} {active : List ℕ} {bytes : Bytes} {vs : Items}
        → ChildrenAt d bytes count first
        → ItemsAt e d levels active first count vs
        → BodyAt e d levels active (some array_tag) bytes (an_array vs)
    object_body :
        {levels count first : ℕ} {active : List ℕ} {bytes : Bytes} {ms : Members}
        → ChildrenAt d bytes count first
        → MembersAt e d levels active first count ms
        → BodyAt e d levels active (some object_tag) bytes (an_object ms)

  pub data ItemsAt (e : Engine) (d : Decoder) : ℕ → List ℕ → ℕ → ℕ → Items → Type 0 where
    items_end : {levels first : ℕ} {active : List ℕ} → ItemsAt e d levels active first 0 no_items
    next_item :
        {levels first count i : ℕ} {active : List ℕ} {v : Json} {vs : Items}
        → first < d.children.extent
        → first < 2 ^ 32
        → IsCell d.vector.values_index (d.children.offset + first) i
        → HoldsAt e d levels active i v
        → ItemsAt e d levels active (suc first) count vs
        → ItemsAt e d levels active first (suc count) (an_item v vs)

  pub data MembersAt (e : Engine) (d : Decoder) : ℕ → List ℕ → ℕ → ℕ → Members → Type 0 where
    members_end :
        {levels first : ℕ} {active : List ℕ} → MembersAt e d levels active first 0 no_members
    next_member :
        {levels first count i j : ℕ} {k : Bytes} {active : List ℕ} {v : Json} {ms : Members}
        → first < d.children.extent
        → first < 2 ^ 32
        → IsCell d.vector.values_index (d.children.offset + first) i
        → IsCell d.vector.keys_index (d.children.offset + first) j
        → j < d.keys.extent
        → IsCell d.vector.key_names (d.keys.offset + j) k
        → HoldsAt e d levels active i v
        → MembersAt e d levels active (suc first) count ms
        → MembersAt e d levels active first (suc count) (a_member k v ms)
