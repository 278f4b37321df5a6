-- ===== src/Cells/Bits.antt =====
-- BIT cells: the decoder of the stored bytes against the text of all their bits.
use php_duckdb.Prelude.{
  ℕ, zero, suc, ◌+◌, ◌-◌, ◌*◌, ◌/◌, ◌%◌, ◌^◌, ◌<◌, ◌≡◌, refl, sym, ap, [], ◌∷◌, ◌++◌, arith, Bytes,
  length, drop, ◌==◌, if◌then◌else◌,
}
use Prim.Native.Nat.{bit_and}
use mathlib.Core.Path.{subst}
use php_duckdb.Cells.Scalar.{byte_bits, rest_bits, decode_bit}

-- The last `k` binary digits of a byte, the most significant one first.
abbrev pub bits_of : ℕ → ℕ → Bytes
bits_of zero byte = []
bits_of (suc k) byte = (if bit_and (byte / 2 ^ k) 1 == 1 then b'1' else b'0') ∷ bits_of k byte

abbrev pub all_bits : Bytes → Bytes
all_bits [] = []
all_bits (byte ∷ bytes) = bits_of 8 byte ++ all_bits bytes

byte_bits_lem : (k byte room : ℕ) → byte_bits k byte (k + room) ≡ (bits_of k byte, room)
unfolding byte_bits
byte_bits_lem zero byte room =
    ap (λ (r : ℕ). byte_bits 0 byte r) {x = 0 + room} {y = room} (omega arith)
byte_bits_lem (suc k) byte room =
    let e : suc k + room ≡ suc (k + room) = omega arith in rw (e, byte_bits_lem k byte room)

rest_bits_lem : (bytes : Bytes) → rest_bits bytes (length bytes * 8) ≡ all_bits bytes
unfolding rest_bits
rest_bits_lem [] = refl
rest_bits_lem (byte ∷ bytes) =
    let e : length (byte ∷ bytes) * 8 ≡ 8 + length bytes * 8 = omega arith in
    rw (e, byte_bits_lem 8 byte (length bytes * 8), rest_bits_lem bytes)

drop-bits :
    (p k byte : ℕ) (rest : Bytes) → drop p (bits_of (p + k) byte ++ rest) ≡ bits_of k byte ++ rest
drop-bits zero k byte rest = let e : 0 + k ≡ k = omega arith in rw e
drop-bits (suc p) k byte rest =
    let e : suc p + k ≡ suc (p + k) = omega arith in rw e (drop-bits p k byte rest)

-- For a stored BIT value of at least one data byte and fewer than 2 ^ 29, whose first byte says that at
-- most seven bits are padding, the text is that of all the bits of the data bytes, the most significant
-- first, without the padding.
pub decode_bit-drop :
    (padding byte : ℕ) (bytes : Bytes)
    → padding < 8
    → length (byte ∷ bytes) < 2 ^ 29
    → decode_bit (padding ∷ byte ∷ bytes) ≡ drop padding (all_bits (byte ∷ bytes))
unfolding decode_bit
decode_bit-drop padding byte bytes p n =
    let k : ℕ = 8 - padding in
    let e : (length (byte ∷ bytes) * 8 + 2 ^ 32 - padding) % 2 ^ 32 ≡ k + length bytes * 8 =
      omega arith in
    let whole : padding + k ≡ 8 = omega arith in
    let cut : drop padding (bits_of 8 byte ++ all_bits bytes) ≡ bits_of k byte ++ all_bits bytes =
      subst
        (λ (w : ℕ).
          drop padding (bits_of w byte ++ all_bits bytes) ≡ bits_of k byte ++ all_bits bytes)
        whole (drop-bits padding k byte (all_bits bytes)) in
    rw (e, byte_bits_lem k byte (length bytes * 8), rest_bits_lem bytes) (sym cut)
