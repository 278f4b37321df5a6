-- ===== src/Variant/Render.antt =====
-- `Decoder::render` and `duckdb_decode_variant` of src/variant_decode.cpp.
use php_duckdb.Prelude.{
  ℕ, zero, suc, ◌+◌, ◌-◌, ◌%◌, ◌^◌, Bool, true, false, not, ◌&&◌, ◌||◌, List, [], ◌∷◌, ◌++◌, Option,
  none, some, Bytes, codes, length, get_elem?, get_or, ltb, ◌==◌, if◌then◌else◌, bytes_eq,
  has_prefix,
}
use php_duckdb.Prelude.Decimal.{decimal}
use php_duckdb.Variant.{
  Reader, done, seek, take_bytes, read_unsigned, varint, too_deep, cyclic, bad_bits, bad_children,
  bad_tag, unsupported_version,
}
use php_duckdb.Variant.Real.{real}
use php_duckdb.Variant.Geometry.{geometry, maximum_depth, separated}
use php_duckdb.Variant.Quote.{quote}
use php_duckdb.Variant.Decode.{
  Result, ok, failed, bind, from, Vector, Decoder, decoder, index, cell, Engine, hugeint, uhugeint,
  uuid, blob_value, bit_value, moment, Moment, moment_bytes, date, time, time_ns, timestamp_s,
  timestamp_ms, timestamp, timestamp_ns, time_tz, timestamp_tz, interval, timestamp_tz_ns, scalar,
  signed_text, real_text, decimal_text, bignum, require_type,
}

-- The type tags of values.
pub data Tag : Type 0 where
  null_tag true_tag false_tag hugeint_tag uhugeint_tag float_tag double_tag decimal_tag : Tag
  varchar_tag blob_tag uuid_tag object_tag array_tag bignum_tag bit_tag geometry_tag : Tag
  signed_tag unsigned_tag : ℕ → Tag
  moment_tag : Moment → Tag

-- The tags by their numbers.
abbrev pub tags : List Tag
tags =
    null_tag
    ∷ true_tag
    ∷ false_tag
    ∷ signed_tag 1
    ∷ signed_tag 2
    ∷ signed_tag 4
    ∷ signed_tag 8
    ∷ hugeint_tag
    ∷ unsigned_tag 1
    ∷ unsigned_tag 2
    ∷ unsigned_tag 4
    ∷ unsigned_tag 8
    ∷ uhugeint_tag
    ∷ float_tag
    ∷ double_tag
    ∷ decimal_tag
    ∷ varchar_tag
    ∷ blob_tag
    ∷ uuid_tag
    ∷ moment_tag date
    ∷ moment_tag time
    ∷ moment_tag time_ns
    ∷ moment_tag timestamp_s
    ∷ moment_tag timestamp_ms
    ∷ moment_tag timestamp
    ∷ moment_tag timestamp_ns
    ∷ moment_tag time_tz
    ∷ moment_tag timestamp_tz
    ∷ moment_tag interval
    ∷ object_tag
    ∷ array_tag
    ∷ bignum_tag
    ∷ bit_tag
    ∷ geometry_tag
    ∷ moment_tag timestamp_tz_ns
    ∷ []

abbrev pub quoted : Bytes → Result Bytes
quoted text = ok (quote text)

abbrev pub sized_bytes : Reader → (Bytes → Result Bytes) → Result Bytes
sized_bytes r f = from (varint r) (λ extent r1. from (take_bytes extent r1) (λ bytes r2. f bytes))

abbrev pub bit_text : Engine → Bytes → Result Bytes
bit_text e bytes =
    if ltb (length bytes) 2 || ltb 7 (get_or bytes 0 0)
    then failed bad_bits
    else bind (scalar e (bit_value bytes)) quoted

abbrev pub number_at : ℕ → Reader → (ℕ → Result Bytes) → Result Bytes
number_at width r f = from (read_unsigned width r) (λ n r1. f n)

abbrev pub flip_top : ℕ → ℕ
flip_top n = if ltb n (2 ^ 127) then n + 2 ^ 127 else n - 2 ^ 127

-- Byte strings in the order of `std::string::operator<`.
abbrev pub bytes_ltb : Bytes → Bytes → Bool
bytes_ltb s [] = false
bytes_ltb [] (d ∷ t) = true
bytes_ltb (c ∷ s) (d ∷ t) = ltb c d || (c == d && bytes_ltb s t)

abbrev pub Fields : Type 0
Fields = List (Bytes × Bytes)

-- A field is put where its key stands already, or at the end.
abbrev pub put : Bytes → Bytes → Fields → Fields
put key text [] = (key, text) ∷ []
put key text ((k, t) ∷ fields) =
    if bytes_eq k key then (k, text) ∷ fields else (k, t) ∷ put key text fields

-- Sorted by the keys; equal keys do not occur.
abbrev pub insert : Bytes → Bytes → Fields → Fields
insert key text [] = (key, text) ∷ []
insert key text ((k, t) ∷ fields) =
    if bytes_ltb k key then (k, t) ∷ insert key text fields else (key, text) ∷ (k, t) ∷ fields

abbrev pub sort : Fields → Fields
sort [] = []
sort ((k, t) ∷ fields) = insert k t (sort fields)

abbrev pub fields_text : Bool → Fields → Bytes
fields_text first [] = []
fields_text first ((k, t) ∷ fields) =
    separated first (codes ",") (quote k ++ (b':' ∷ t)) ++ fields_text false fields

-- The value of a child, and its key.
abbrev pub child_value : Decoder → (ℕ → Result Bytes) → ℕ → Result Bytes
child_value d inner row = bind (cell d.vector.values_index row) inner

abbrev pub child_key : Decoder → ℕ → Result Bytes
child_key d row =
    bind (cell d.vector.keys_index row) (λ i. bind (index d.keys i) (cell d.vector.key_names))

-- The loop over the children from `first` on, as elements of an array and as fields of an object.
unfoldable pub elements : Decoder → (ℕ → Result Bytes) → ℕ → ℕ → Bool → Bytes → Result Bytes
elements d inner zero first start result = ok result
elements d inner (suc count) first start result = bind (index d.children (first % 2 ^ 32)) (λ row.
    bind (child_value d inner row) (λ text.
      elements d inner count (suc first) false (result ++ separated start (codes ",") text)))

unfoldable pub members : Decoder → (ℕ → Result Bytes) → ℕ → ℕ → Fields → Result Fields
members d inner zero first fields = ok fields
members d inner (suc count) first fields = bind (index d.children (first % 2 ^ 32)) (λ row.
    bind (child_value d inner row) (λ text.
      bind (child_key d row) (λ key. members d inner count (suc first) (put key text fields))))

abbrev pub closing : Bytes → Bytes → Result Bytes
closing close text = ok (text ++ close)

-- The number of children and the first of them.
unfoldable pub children_at : Decoder → Reader → (ℕ → ℕ → Result Bytes) → Result Bytes
children_at d r f = from (varint r) (λ count r1.
    from (if count == 0 then done 0 r1 else varint r1) (λ first r2.
      if ltb d.children.extent first || ltb (d.children.extent - first) count
      then failed bad_children
      else f count first))

-- The cases of the type tag, with the rendering of a value inside.
unfoldable pub by_tag : Engine → Decoder → (ℕ → Result Bytes) → Reader → Option Tag → Result Bytes
by_tag e d inner r none = failed bad_tag
by_tag e d inner r (some null_tag) = ok (codes "null")
by_tag e d inner r (some true_tag) = ok (codes "true")
by_tag e d inner r (some false_tag) = ok (codes "false")
by_tag e d inner r (some (signed_tag width)) = number_at width r (λ n. ok (signed_text width n))
by_tag e d inner r (some (unsigned_tag width)) = number_at width r (λ n. ok (decimal n))
by_tag e d inner r (some hugeint_tag) = number_at 16 r (λ n. scalar e (hugeint n))
by_tag e d inner r (some uhugeint_tag) = number_at 16 r (λ n. scalar e (uhugeint n))
by_tag e d inner r (some float_tag) =
    number_at 4 r (λ n. real_text (real e.floats false (e.widen n)))
by_tag e d inner r (some double_tag) = number_at 8 r (λ n. real_text (real e.floats false n))
by_tag e d inner r (some decimal_tag) = decimal_text e r
by_tag e d inner r (some varchar_tag) = sized_bytes r quoted
by_tag e d inner r (some blob_tag) =
    sized_bytes r (λ bytes. bind (scalar e (blob_value bytes)) quoted)
by_tag e d inner r (some bignum_tag) = sized_bytes r (bignum e)
by_tag e d inner r (some bit_tag) = sized_bytes r (bit_text e)
by_tag e d inner r (some geometry_tag) =
    sized_bytes r (λ bytes. from (geometry e.floats bytes) (λ text r1. quoted text))
by_tag e d inner r (some uuid_tag) =
    number_at 16 r (λ n. bind (scalar e (uuid (flip_top n))) quoted)
by_tag e d inner r (some (moment_tag m)) =
    number_at (moment_bytes m) r (λ n. bind (scalar e (moment m n)) quoted)
by_tag e d inner r (some object_tag) = children_at d r (λ count first.
    bind (members d inner count first [])
      (λ fields. closing (b'}' ∷ []) (b'{' ∷ fields_text true (sort fields))))
by_tag e d inner r (some array_tag) =
    children_at d r
      (λ count first. bind (elements d inner count first true (b'[' ∷ [])) (closing (b']' ∷ [])))

abbrev pub is_active : ℕ → List ℕ → Bool
is_active i [] = false
is_active i (j ∷ active) = i == j || is_active i active

-- `Decoder::render`, with so many levels left, inside the values that are active.
unfoldable pub render : Engine → Decoder → ℕ → List ℕ → ℕ → Result Bytes
render e d zero active i = failed too_deep
render e d (suc levels) active i =
    if is_active i active
    then failed cyclic
    else bind (index d.values i) (λ row. bind (cell d.vector.type_id row) (λ tag.
      bind (cell d.vector.byte_offset row) (λ offset.
        from (seek offset d.blob)
          (λ o r. by_tag e d (render e d levels (i ∷ active)) r (get_elem? tags tag)))))

abbrev pub supported_format : Option Bytes → Bool
supported_format none = false
supported_format (some version) =
    has_prefix (codes "v2.0.") version || has_prefix (codes "2.0.") version

-- A cell becomes null or a text.
pub data Decoded : Type 0 where
  null : Decoded
  text : Bytes → Decoded

-- `duckdb_decode_variant`, on the vector's own type and validity and its parts.
unfoldable pub decode_variant :
    Engine → Option Bytes → Bool → (ℕ → Bool) → Vector → ℕ → Result Decoded
decode_variant e version fits is_valid v row =
    if not (supported_format version)
    then failed unsupported_version
    else bind (require_type fits) (λ u.
      if not (is_valid row)
      then ok null
      else bind (decoder v row)
          (λ d. bind (render e d (suc maximum_depth) [] 0) (λ result. ok (text result))))
