-- ===== src/Variant.antt =====
-- src/variant_decode.cpp: the reader of a VARIANT payload.
pub mod Varint
pub mod Real
pub mod Geometry
pub mod Quote
pub mod Decode
pub mod Render
pub mod Fields
pub mod Stored
pub mod Steps
pub mod Json
mod Tests
use Prim.Native.Nat.{bit_and, bit_or}
use php_duckdb.Prelude.{
  ℕ, zero, suc, ◌+◌, ◌-◌, ◌*◌, ◌%◌, ◌^◌, Bool, not, ◌&&◌, [], ◌∷◌, Bytes, length, take, drop,
  get_or, ltb, ◌==◌, if◌then◌else◌,
}

-- `Reader`; its size is the length of its data.
pub record Reader : Type 0 where
  pub bytes : Bytes
  pub position : ℕ

pub data Message : Type 0 where
  offset_out_of_bounds truncated invalid_varint unrendered invalid_geometry trailing_bytes : Message
  missing_vector_type null_list missing_list bad_list_range bad_index bad_layout null_value
        missing_value :
      Message
  missing_blob null_blob unconstructed bad_bignum_length bad_bignum_header too_deep cyclic
        bad_decimal bad_bits :
      Message
  bad_children bad_tag unsupported_version : Message

-- What a read gives: a value and the reader behind it, or the exception of `invalid`.
pub data Read {ℓ} (A : Type ℓ) : Type ℓ where
  done : A → Reader → Read A
  invalid : Message → Read A

abbrev pub and_then : {A B : Type 0} → Read A → (A → Reader → Read B) → Read B
and_then (done a r) f = f a r
and_then (invalid m) f = invalid m

abbrev pub remaining : Reader → ℕ
remaining r = length r.bytes - r.position

-- `Reader::offset`.
unfoldable pub seek : ℕ → Reader → Read ℕ
seek value r =
    if ltb (length r.bytes) value
    then invalid offset_out_of_bounds
    else done value (record r { position = value })

-- `Reader::take`.
unfoldable pub take_bytes : ℕ → Reader → Read Bytes
take_bytes count r =
    if ltb (remaining r) count
    then invalid truncated
    else done (take count (drop r.position r.bytes)) (record r { position = r.position + count })

-- `native<uint8_t>`.
unfoldable pub native_byte : Reader → Read ℕ
native_byte r = and_then (take_bytes 1 r) (λ taken r'. done (get_or taken 0 0) r')

abbrev pub little_endian : Bytes → ℕ
little_endian [] = 0
little_endian (b ∷ bytes) = b + 256 * little_endian bytes

-- `Read<T>` for the unsigned integer of `count` bytes.
unfoldable pub read_unsigned : ℕ → Reader → Read ℕ
read_unsigned count r = and_then (take_bytes count r) (λ taken r'. done (little_endian taken) r')

-- The turns of `varint` that are left: after the turn with shift 28 there is none.
unfoldable pub varint_loop : ℕ → ℕ → ℕ → Reader → Read ℕ
varint_loop zero shift value r = invalid invalid_varint
varint_loop (suc turns) shift value r = and_then (native_byte r) (λ byte r'.
    let value' = bit_or value (bit_and byte 127 * 2 ^ shift % 2 ^ 32) in
    let rest = varint_loop turns (shift + 7) value' r' in
    if shift == 28 && not (bit_and byte 240 == 0)
    then invalid invalid_varint
    else if bit_and byte 128 == 0
    then done value' r'
    else rest)

abbrev pub varint : Reader → Read ℕ
varint r = varint_loop 5 0 0 r
