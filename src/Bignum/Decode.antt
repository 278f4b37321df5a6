-- ===== src/Bignum/Decode.antt =====
-- The decoder as a whole, against the storage format that it reads.
use php_duckdb.Prelude.{
  ℕ, ◌+◌, ◌-◌, ◌≤◌, ◌<◌, ◌≡◌, ◌≢◌, ◌⊎◌, inl, inr, false, ◌==◌, Bool-cases, sym, ap, ◌∙◌, Bool, true,
  [], Option, none, some, arith, length, Bytes, All, All-drop, drop, length-drop,
}
use mathlib.Core.Path.{subst}
use php_duckdb.Prelude.Decimal.{decimal}
use php_duckdb.Bignum.{
  header_size, maximum_payload, maximum_limbs, or_zero, Limits, Cell, decoded, declared,
  magnitude_byte, byte_at, is_negative, limbs, signed, emit_limbs, render, convert, decode_bytes,
  decode_cell, supported_format, decode_bignum,
}
use php_duckdb.Bignum.Words.{IsByte, big_endian, limbs-big_endian, limbs-IsCanonical}
use php_duckdb.Bignum.Text.{emit_limbs-decimal, length-le-maximum_limbs}

abbrev pub payload_value : Bytes → ℕ
payload_value stored = big_endian (is_negative stored) 0 (drop header_size stored)

module _ (lim : Limits) (negative : Bool) (stored : Bytes) (payload : ℕ) where
  pub rendered :
      All IsByte stored
      → length stored ≡ header_size + payload
      → emit_limbs (or_zero (limbs negative stored payload)) []
        ≡ decimal (big_endian negative 0 (drop header_size stored))
  rendered h e =
      emit_limbs-decimal _ (limbs-IsCanonical negative stored payload h)
      ∙ ap decimal (limbs-big_endian negative stored payload h e)

  convert-decoded :
      (out : Bytes)
      → All IsByte stored
      → length stored ≡ header_size + payload
      → convert lim negative stored payload ≡ decoded out
      → out ≡ signed negative (decimal (big_endian negative 0 (drop header_size stored)))
  unfolding convert render
  convert-decoded out h e d = ground (arith, rendered h e)

-- The header of a stored number: the length of its payload in the 23 bits behind the sign, and no leading zero byte
-- unless the payload is the one byte of the number zero, which has no sign.
pub record HasHeader (stored : Bytes) (payload : ℕ) : Type 0 where
  pub says_length : declared (is_negative stored) stored ≡ payload
  pub no_leading_zero :
      (magnitude_byte (is_negative stored) (byte_at stored 3) ≢ 0)
      ⊎ ((payload ≤ 1) × ((is_negative stored ≡ false) ⊎ (payload ≢ 1)))

decode_bytes-HasHeader :
    (lim : Limits) (stored : Bytes) (payload : ℕ) (out : Bytes)
    → decode_bytes lim stored payload ≡ decoded out
    → HasHeader stored payload
unfolding decode_bytes
decode_bytes-HasHeader lim stored payload out d = record {
  says_length = ground arith;
  no_leading_zero = elim (Bool-cases first_zero) [
    | inr f ↦ inl (λ e. ground arith)
    | inl t ↦ inr (
      ground arith,
      elim (Bool-cases (is_negative stored)) [ inl n ↦ inr (λ e. ground arith) | inr n ↦ inl n ],
    )
  ];
}
  where
    first_zero : Bool
    first_zero = magnitude_byte (is_negative stored) (byte_at stored 3) == 0

decode_bytes-decoded :
    (lim : Limits) (stored : Bytes) (payload : ℕ) (out : Bytes)
    → All IsByte stored
    → length stored ≡ header_size + payload
    → decode_bytes lim stored payload ≡ decoded out
    → out ≡ signed (is_negative stored) (decimal (payload_value stored))
unfolding decode_bytes
decode_bytes-decoded lim stored payload out h e d =
    ground (arith, convert-decoded lim (is_negative stored) stored payload out h e)

-- What the program relies on: a cell's pointer leads to as many bytes as its length says.
pub record IsCell (cell : Cell) (stored : Bytes) : Type 0 where
  pub pointed : cell.bytes ≡ some stored
  pub whole : length stored ≡ cell.len
  pub all_bytes : All IsByte stored

decode_cell-decoded :
    (lim : Limits) (cell : Cell) (stored : Bytes) (out : Bytes)
    → IsCell cell stored
    → decode_cell lim cell ≡ decoded out
    → (header_size < length stored)
      × (length stored ≤ header_size + maximum_payload)
      × (out ≡ signed (is_negative stored) (decimal (payload_value stored)))
unfolding decode_cell
decode_cell-decoded lim cell stored out c d = ground (
  arith,
  c.pointed,
  c.whole,
  decode_bytes-decoded lim stored (cell.len - header_size) out c.all_bytes,
)

decode_cell-HasHeader :
    (lim : Limits) (cell : Cell) (stored : Bytes) (out : Bytes)
    → IsCell cell stored
    → decode_cell lim cell ≡ decoded out
    → HasHeader stored (length stored - header_size)
unfolding decode_cell
decode_cell-HasHeader lim cell stored out c d =
    let e : decode_bytes lim stored (cell.len - header_size) ≡ decoded out =
      ground (arith, c.pointed) in
    subst (λ n. HasHeader stored (n - header_size)) (sym c.whole)
      (decode_bytes-HasHeader lim stored (cell.len - header_size) out e)

-- Of a cell that holds its bytes, whatever text the decoder returns is the exact decimal notation of the stored number: the sign of
-- the header, then the decimal digits of the big-endian payload (complemented if negative). It
-- returns one only in the supported format, for a payload of 1 to 8388607 bytes, and under a header that gives the
-- length of the payload and leaves no leading zero and no negative zero.
pub decode_bignum-decoded :
    (lim : Limits) (version : Option Bytes) (cells : Option (ℕ → Cell)) (row : ℕ) (cell : ℕ → Cell)
    (stored : Bytes) (out : Bytes)
    → cells ≡ some cell
    → IsCell (cell row) stored
    → decode_bignum lim version cells row ≡ decoded out
    → (supported_format version ≡ true)
      × (header_size < length stored)
      × (length stored ≤ header_size + maximum_payload)
      × HasHeader stored (length stored - header_size)
      × (out ≡ signed (is_negative stored) (decimal (payload_value stored)))
unfolding decode_bignum
decode_bignum-decoded lim version none row cell stored out e c d = absurd (cc)
decode_bignum-decoded lim version (some f) row cell stored out e c d =
    let e' : f row ≡ cell row = ground arith in
    let supported : supported_format version ≡ true = ground arith in
    let run : decode_cell lim (f row) ≡ decoded out = ground arith in
    let c' : IsCell (f row) stored = rw e' c in
    let (above, below, text) = decode_cell-decoded lim (f row) stored out c' run in
    (supported, above, below, decode_cell-HasHeader lim (f row) stored out c' run, text)

-- The limbs of any payload fit the capacity that the decoder reserves for them, so no push grows the
-- vector.
pub length-limbs-le :
    (negative : Bool) (stored : Bytes) (payload : ℕ)
    → All IsByte stored
    → length stored ≡ header_size + payload
    → length (limbs negative stored payload) ≤ maximum_limbs payload
length-limbs-le negative stored payload h e =
    let bound =
      length-le-maximum_limbs negative (limbs negative stored payload) (drop header_size stored)
        (limbs-IsCanonical negative stored payload h) (All-drop IsByte header_size stored h)
        (limbs-big_endian negative stored payload h e) in
    let size : length (drop header_size stored) ≡ payload =
      omega (arith, length-drop header_size stored) in
    omega (arith, bound, ap maximum_limbs size)
