-- ===== src/Bignum/Format.antt =====
-- The storage format of a BIGNUM, and that the decoder reads every number written in it.
use php_duckdb.Prelude.{
  ℕ, suc, ◌+◌, ◌-◌, ◌*◌, ◌/◌, ◌%◌, ◌^◌, ◌≤◌, ◌<◌, ◌≡◌, refl, ap, ◌∙◌, Bool, true, false, List, [],
  ◌∷◌, some, arith, length, Bytes, All, All-drop, drop, length-drop, ltb, ◌==◌, if◌then◌else◌, ◌&&◌,
}
use php_duckdb.Prelude.Bits.{high-or-low, and-low_mask, top_bit}
use php_duckdb.Prelude.Decimal.{decimal}
use php_duckdb.Bignum.{
  header_size, maximum_payload, maximum_limbs, or_zero, Limits, Cell, decoded, is_negative,
  declared, magnitude_byte, byte_at, limbs, signed, emit_limbs, render, convert, decode_bytes,
  decode_cell, supported_format, decode_bignum,
}
use php_duckdb.Bignum.Limbs.{IsCanonical}
use php_duckdb.Bignum.Words.{IsByte, big_endian, limbs-big_endian, limbs-IsCanonical}
use php_duckdb.Bignum.Text.{text_prefix-le, length-le-maximum_limbs}
use php_duckdb.Bignum.Decode.{IsCell, rendered}

-- The storage format: three bytes of header with the payload's length under a sign bit, then the
-- magnitude, all complemented if the number is negative.
stored_byte : Bool → ℕ → ℕ
stored_byte negative b = if negative then 255 - b else b

unfoldable pub store_all : Bool → Bytes → Bytes
unfolding stored_byte
store_all negative [] = []
store_all negative (b ∷ bs) = stored_byte negative b ∷ store_all negative bs

abbrev pub store : Bool → Bytes → Bytes
store negative magnitude =
    let n = length magnitude in
    store_all negative ((128 + n / 65536) ∷ (n / 256 % 256) ∷ (n % 256) ∷ magnitude)

-- A magnitude that the format allows: 1 to 8388607 bytes, no leading zero byte, but one zero byte
-- for the number zero, which is not negative.
pub data IsMagnitude (negative : Bool) : Bytes → Type 0 where
  single_zero : negative ≡ false → IsMagnitude negative (0 ∷ [])
  leading :
      (b : ℕ) (bs : Bytes)
      → 0 < b
      → All IsByte (b ∷ bs)
      → length bs < maximum_payload
      → IsMagnitude negative (b ∷ bs)

-- Enough room for every number of the format.
pub record IsRoomy (lim : Limits) : Type 0 where
  pub words : lim.size_max ≡ 2 ^ 64 - 1
  pub vector : maximum_limbs maximum_payload ≤ lim.vector_max
  pub strings : 2 ^ 32 ≤ lim.zstr_max
  pub bounded : lim.zstr_max < 2 ^ 64
  pub reserves : (n : ℕ) → lim.reserves n ≡ true

render-IsRoomy :
    (lim : Limits) (negative : Bool) (ds : List ℕ)
    → IsRoomy lim
    → IsCanonical ds
    → length ds ≤ maximum_limbs maximum_payload
    → render lim negative (or_zero ds) ≡ decoded (signed negative (emit_limbs (or_zero ds) []))
unfolding render
render-IsRoomy lim negative [] room c h = ground (arith, text_prefix-le negative [] c)
render-IsRoomy lim negative (d ∷ ds) room c h = ground (arith, text_prefix-le negative (d ∷ ds) c)

convert-IsRoomy :
    (lim : Limits) (negative : Bool) (stored : Bytes) (payload : ℕ)
    → IsRoomy lim
    → All IsByte stored
    → length stored ≡ header_size + payload
    → payload ≤ maximum_payload
    → convert lim negative stored payload
      ≡ decoded (signed negative (decimal (big_endian negative 0 (drop header_size stored))))
unfolding convert
convert-IsRoomy lim negative stored payload room h e small =
    let ds = limbs negative stored payload in
    let c = limbs-IsCanonical negative stored payload h in
    let fits =
      length-le-maximum_limbs negative ds (drop header_size stored) c
        (All-drop IsByte header_size stored h) (limbs-big_endian negative stored payload h e) in
    let counted = length-drop header_size stored in
    let reserved = room.reserves (maximum_limbs payload) in
    ground (
      arith,
      counted,
      fits,
      reserved,
      rendered lim negative stored payload h e,
      render-IsRoomy lim negative ds room c (omega arith),
    )

module _ (negative : Bool) where
  length-store_all : (bs : Bytes) → length (store_all negative bs) ≡ length bs
  unfolding store_all
  length-store_all [] = refl
  length-store_all (b ∷ bs) = ap suc (length-store_all bs)

  store_all-IsByte : (bs : Bytes) → All IsByte bs → All IsByte (store_all negative bs)
  unfolding store_all
  store_all-IsByte [] h = tt
  store_all-IsByte (b ∷ bs) (h, hs) = (ground arith, store_all-IsByte bs hs)

  -- Complementing twice gives the byte back.
  magnitude_byte-stored : (b : ℕ) → b < 256 → magnitude_byte negative (stored_byte negative b) ≡ b
  unfolding magnitude_byte stored_byte
  magnitude_byte-stored b h = ground arith

  big_endian-store_all :
      (bs : Bytes) (acc : ℕ)
      → All IsByte bs
      → big_endian negative acc (store_all negative bs) ≡ big_endian false acc bs
  unfolding store_all magnitude_byte
  big_endian-store_all [] acc h = refl
  big_endian-store_all (b ∷ bs) acc (h, hs) =
      ap (λ (t : ℕ). big_endian negative (acc * 256 + t) (store_all negative bs))
        (magnitude_byte-stored b h)
      ∙ big_endian-store_all bs (acc * 256 + b) hs

IsMagnitude-IsByte : {negative : Bool} {m : Bytes} → IsMagnitude negative m → All IsByte m
IsMagnitude-IsByte (single_zero e) = (omega arith, tt)
IsMagnitude-IsByte (leading b bs p h q) = h

IsMagnitude-length :
    {negative : Bool} {m : Bytes}
    → IsMagnitude negative m
    → (0 < length m) × (length m ≤ maximum_payload)
IsMagnitude-length (single_zero e) = omega arith
IsMagnitude-length (leading b bs p h q) = omega arith

-- The header is read back.
is_negative-store :
    (negative : Bool) (m : Bytes)
    → length m ≤ maximum_payload
    → is_negative (store negative m) ≡ negative
unfolding is_negative store_all
is_negative-store negative m small =
    let top = 128 + length m / 65536 in ground (arith, top_bit top, top_bit (255 - top))

declared-store :
    (negative : Bool) (m : Bytes)
    → length m ≤ maximum_payload
    → declared negative (store negative m) ≡ length m
unfolding declared store_all
declared-store negative m small =
    let n = length m in
    let h = magnitude_byte-stored negative (128 + n / 65536) (omega arith) in
    let k = magnitude_byte-stored negative (n / 256 % 256) (omega arith) in
    let l = magnitude_byte-stored negative (n % 256) (omega arith) in
    let low = and-low_mask 7 (128 + n / 65536) in
    let top = (128 + n / 65536) % 128 in
    let middle = high-or-low 16 top (n / 256 % 256 * 2 ^ 8) (omega arith) in
    let bottom = high-or-low 8 (top * 2 ^ 8 + n / 256 % 256) (n % 256) (omega arith) in
    let shape : top * 2 ^ 16 + n / 256 % 256 * 2 ^ 8 ≡ (top * 2 ^ 8 + n / 256 % 256) * 2 ^ 8 =
      omega arith in
    rw (h, k, l, low, middle, shape, bottom) (omega arith)

-- The first byte of the payload, by which a noncanonical number is told.
first-store :
    (negative : Bool) (m : Bytes)
    → IsMagnitude negative m
    → let first = magnitude_byte negative (byte_at (store negative m) 3) in
      ((ltb 1 (length m) && first == 0) ≡ false)
      × ((negative && length m == 1 && first == 0) ≡ false)
unfolding store_all
first-store negative m (single_zero e) = rw e (unfold magnitude_byte in (refl, refl))
first-store negative m (leading b bs p h q) =
    rw (magnitude_byte-stored negative b h.0) (ground arith, ground arith)

decode_bytes-store :
    (lim : Limits) (negative : Bool) (m : Bytes)
    → IsRoomy lim
    → IsMagnitude negative m
    → All IsByte (store negative m)
    → decode_bytes lim (store negative m) (length m)
      ≡ decoded (signed negative (decimal (big_endian false 0 m)))
unfolding decode_bytes
decode_bytes-store lim negative m room mag h =
    let (_, small) = IsMagnitude-length mag in
    let (f1, f2) = first-store negative m mag in
    let size : length (store negative m) ≡ header_size + length m =
      unfold store_all in omega (arith, length-store_all negative m) in
    let result = convert-IsRoomy lim negative (store negative m) (length m) room h size small in
    let spelled : big_endian negative 0 (drop header_size (store negative m))
        ≡ big_endian false 0 m =
      unfold store_all in big_endian-store_all negative m 0 (IsMagnitude-IsByte mag) in
    rw (is_negative-store negative m small, declared-store negative m small)
      (ground (arith, f1, f2, result, spelled))

-- Every number of the storage format is decoded, to its decimal notation: in a supported version,
-- with enough room, for a magnitude of 1 to 8388607 bytes with no leading zero.
pub decode_bignum-store :
    (lim : Limits) (version : Bytes) (cell : ℕ → Cell) (row : ℕ) (negative : Bool) (m : Bytes)
    → IsRoomy lim
    → supported_format (some version) ≡ true
    → IsMagnitude negative m
    → IsCell (cell row) (store negative m)
    → decode_bignum lim (some version) (some cell) row
      ≡ decoded (signed negative (decimal (big_endian false 0 m)))
unfolding decode_bignum decode_cell
decode_bignum-store lim version cell row negative m room v mag c =
    let (positive, small) = IsMagnitude-length mag in
    let size : (cell row).len ≡ header_size + length m =
      unfold store_all in omega (arith, c.whole, length-store_all negative m) in
    let spare : (cell row).len - header_size ≡ length m = omega arith in
    ground (
      arith,
      c.pointed,
      size,
      spare,
      ap (decode_bytes lim (store negative m)) spare,
      decode_bytes-store lim negative m room mag c.all_bytes,
    )
