-- ===== src/Variant/Varint.antt =====
-- Variable-length integers: the reader takes back what the standard encoding writes.
use php_duckdb.Prelude.{
  ℕ, zero, suc, ◌+◌, ◌*◌, ◌/◌, ◌%◌, ◌^◌, ◌<◌, ◌≡◌, inl, inr, refl, sym, ap, ◌∙◌, true, false, not,
  ◌&&◌, [], ◌∷◌, ◌++◌, arith, tests, Bytes, length, drop, ltb, ◌==◌, ==_iff, if◌then◌else◌,
  Bool-cases, lt→ltb,
}
use Prim.Native.Nat.{bit_and, bit_or}
use mathlib.Core.Path.{subst}
use php_duckdb.Prelude.{length-drop}
use php_duckdb.Prelude.Bits.{low-or-high, and-low_mask, top_bit, high_bits, pow-add}
use php_duckdb.Variant.{Reader, done, remaining, take_bytes, native_byte, varint_loop, varint}

-- Seven bits in each byte, the lowest first, and the top bit of all but the last one set.
abbrev pub leb128 : ℕ → ℕ → Bytes
leb128 zero n = []
leb128 (suc k) n = if ltb n 128 then n ∷ [] else (128 + n % 128) ∷ leb128 k (n / 128)

abbrev moved : ℕ → Reader → Reader
moved count r = record r { position = r.position + count }

byte_read :
    (r : Reader) (b : ℕ) (rest : Bytes)
    → drop r.position r.bytes ≡ b ∷ rest
    → native_byte r ≡ done b (moved 1 r)
unfolding native_byte take_bytes
byte_read r b rest h =
    let n : length (drop r.position r.bytes) ≡ suc (length rest) = ap length h in
    let room : ltb (remaining r) 1 ≡ false = ground (arith, length-drop r.position r.bytes) in
    rw (room, h)

drop_next : {b : ℕ} (n : ℕ) (xs rest : Bytes) → drop n xs ≡ b ∷ rest → drop (n + 1) xs ≡ rest
drop_next zero xs rest h = rw h
drop_next (suc n) [] rest h = cc
drop_next (suc n) (x ∷ xs) rest h =
    let e : suc n + 1 ≡ suc (n + 1) = omega arith in rw e (drop_next n xs rest h)

-- What a turn adds: seven bits above those that are there, within 32 bits.
added :
    (shift value b : ℕ)
    → value < 2 ^ shift
    → b % 128 * 2 ^ shift < 2 ^ 32
    → bit_or value (bit_and b 127 * 2 ^ shift % 2 ^ 32) ≡ value + b % 128 * 2 ^ shift
added shift value b h k =
    let low : bit_and b 127 ≡ b % 128 = and-low_mask 7 b in
    let whole : b % 128 * 2 ^ shift % 2 ^ 32 ≡ b % 128 * 2 ^ shift = omega arith in
    rw (low, whole) (low-or-high shift (b % 128) value h)

narrow : (shift b : ℕ) → b * 2 ^ shift < 2 ^ 32 → shift ≡ 28 → b < 16
narrow shift b fits e =
    let fits' : b * 2 ^ 28 < 2 ^ 32 = subst (λ (s : ℕ). b * 2 ^ s < 2 ^ 32) e fits in omega arith

accepted :
    (shift b : ℕ)
    → b < 256
    → (shift ≡ 28 → b < 16)
    → (shift == 28 && not (bit_and b 240 == 0)) ≡ false
accepted shift b byte h = elim (Bool-cases (shift == 28)) [
  | inl e ↦ let small : b < 16 = h ((==_iff shift 28).0 e) in ground (arith, high_bits b byte)
  | inr e ↦ rw e
]

-- The last turn.
last_turn :
    (turns shift value b : ℕ) (r : Reader) (rest : Bytes)
    → drop r.position r.bytes ≡ b ∷ rest
    → b < 128
    → value < 2 ^ shift
    → b * 2 ^ shift < 2 ^ 32
    → varint_loop (suc turns) shift value r ≡ done (value + b * 2 ^ shift) (moved 1 r)
unfolding varint_loop
last_turn turns shift value b r rest h small below fits =
    let whole : b % 128 ≡ b = omega arith in
    let fits' : b % 128 * 2 ^ shift < 2 ^ 32 =
      subst (λ (t : ℕ). t * 2 ^ shift < 2 ^ 32) (sym whole) fits in
    let sum : bit_or value (bit_and b 127 * 2 ^ shift % 2 ^ 32) ≡ value + b * 2 ^ shift =
      added shift value b below fits' ∙ ap (λ (t : ℕ). value + t * 2 ^ shift) whole in
    let top : (bit_and b 128 == 0) ≡ true = ground (arith, top_bit b (omega arith)) in
    rw (byte_read r b rest h, sum, accepted shift b (omega arith) (narrow shift b fits), top)

-- A turn with another one behind it.
more_turn :
    (turns shift value m : ℕ) (r : Reader) (rest : Bytes)
    → drop r.position r.bytes ≡ (128 + m) ∷ rest
    → m < 128
    → shift < 28
    → value < 2 ^ shift
    → m * 2 ^ shift < 2 ^ 32
    → varint_loop (suc turns) shift value r
      ≡ varint_loop turns (shift + 7) (value + m * 2 ^ shift) (moved 1 r)
unfolding varint_loop
more_turn turns shift value m r rest h small early below fits =
    let whole : (128 + m) % 128 ≡ m = omega arith in
    let fits' : (128 + m) % 128 * 2 ^ shift < 2 ^ 32 =
      subst (λ (t : ℕ). t * 2 ^ shift < 2 ^ 32) (sym whole) fits in
    let sum : bit_or value (bit_and (128 + m) 127 * 2 ^ shift % 2 ^ 32) ≡ value + m * 2 ^ shift =
      added shift value (128 + m) below fits' ∙ ap (λ (t : ℕ). value + t * 2 ^ shift) whole in
    let top : (bit_and (128 + m) 128 == 0) ≡ false =
      ground (arith, top_bit (128 + m) (omega arith)) in
    let fine : (shift == 28 && not (bit_and (128 + m) 240 == 0)) ≡ false =
      accepted shift (128 + m) (omega arith) (λ e. absurd (omega arith)) in
    rw (byte_read r (128 + m) rest h, sum, fine, top)

low_part : (p m v : ℕ) → v < p → m < 128 → v + m * p < p * 128
low_part p m v h k = grind arith

both_parts : (p n : ℕ) → n % 128 * p + n / 128 * (p * 128) ≡ n * p
both_parts p n =
    let whole : n / 128 * 128 + n % 128 ≡ n = omega arith in
    let e : (n / 128 * 128 + n % 128) * p ≡ n * p = ap (λ (t : ℕ). t * p) whole in grind arith

-- A number that needs one byte.
one_byte :
    (k shift value n : ℕ) (r : Reader) (rest : Bytes)
    → n < 128
    → value < 2 ^ shift
    → n * 2 ^ shift < 2 ^ 32
    → drop r.position r.bytes ≡ leb128 (suc k) n ++ rest
    → varint_loop (suc k) shift value r
      ≡ done (value + n * 2 ^ shift) (moved (length (leb128 (suc k) n)) r)
one_byte k shift value n r rest small below fits h =
    let one : leb128 (suc k) n ≡ n ∷ [] = rw (lt→ltb n 128 small) in
    let h' : drop r.position r.bytes ≡ n ∷ rest = h ∙ ap (λ (bs : Bytes). bs ++ rest) one in
    rw one (last_turn k shift value n r rest h' small below fits)

moved_twice : (count : ℕ) (r : Reader) → moved count (moved 1 r) ≡ moved (suc count) r
moved_twice count r =
    ap (λ (p : ℕ). record r { position = p }) {x = r.position + 1 + count}
      {y = r.position + suc count} (omega arith)

loop_reads :
    (k shift value n : ℕ) (r : Reader) (rest : Bytes)
    → shift + 7 * k ≡ 28
    → value < 2 ^ shift
    → n * 2 ^ shift < 2 ^ 32
    → drop r.position r.bytes ≡ leb128 (suc k) n ++ rest
    → varint_loop (suc k) shift value r
      ≡ done (value + n * 2 ^ shift) (moved (length (leb128 (suc k) n)) r)
loop_reads zero shift value n r rest turn below fits h =
    let small : n < 16 = narrow shift n fits (omega arith) in
    one_byte zero shift value n r rest (omega arith) below fits h
loop_reads (suc k) shift value n r rest turn below fits h = elim (Bool-cases (ltb n 128)) [
  | inl t ↦ one_byte (suc k) shift value n r rest (omega tests) below fits h
  | inr f ↦
      let bytes : Bytes = leb128 (suc k) (n / 128) in
      let more : leb128 (suc (suc k)) n ≡ (128 + n % 128) ∷ bytes = rw f in
      let h' : drop r.position r.bytes ≡ (128 + n % 128) ∷ (bytes ++ rest) =
        h ∙ ap (λ (bs : Bytes). bs ++ rest) more in
      let p : 2 ^ (shift + 7) ≡ 2 ^ shift * 128 = pow-add 2 shift 7 in
      let parts = both_parts (2 ^ shift) n in
      let low : n % 128 * 2 ^ shift < 2 ^ 32 = omega arith in
      let below' : value + n % 128 * 2 ^ shift < 2 ^ (shift + 7) =
        subst (λ (t : ℕ). value + n % 128 * 2 ^ shift < t) (sym p)
          (low_part (2 ^ shift) (n % 128) value below (omega arith)) in
      let scaled : n / 128 * 2 ^ (shift + 7) ≡ n / 128 * (2 ^ shift * 128) =
        ap (λ (t : ℕ). n / 128 * t) p in
      let sum : value + n % 128 * 2 ^ shift + n / 128 * 2 ^ (shift + 7) ≡ value + n * 2 ^ shift =
        omega arith in
      let tail =
        loop_reads k (shift + 7) (value + n % 128 * 2 ^ shift) (n / 128) (moved 1 r) rest
          (omega arith) below' (omega arith) (drop_next r.position r.bytes (bytes ++ rest) h') in
      more_turn (suc k) shift value (n % 128) r (bytes ++ rest) h' (omega arith) (omega arith) below
        low
      ∙ tail
      ∙ ap (λ (t : ℕ). done t (moved (length bytes) (moved 1 r))) sum
      ∙ ap (done (value + n * 2 ^ shift))
          (moved_twice (length bytes) r ∙ ap (λ (bs : Bytes). moved (length bs) r) (sym more))
]

-- Where the payload goes on with the encoding of a number below 2 ^ 32, in seven bits per byte, `varint`
-- gives the number and stands behind its last byte, whatever comes next.
pub varint-leb128 :
    (n : ℕ) (r : Reader) (rest : Bytes)
    → n < 2 ^ 32
    → drop r.position r.bytes ≡ leb128 5 n ++ rest
    → varint r ≡ done n (record r { position = r.position + length (leb128 5 n) })
varint-leb128 n r rest fits h =
    loop_reads 4 0 0 n r rest refl (omega arith) (omega arith) h
    ∙ ap (λ (t : ℕ). done t (moved (length (leb128 5 n)) r)) {x = 0 + n * 2 ^ 0} {y = n}
        (omega arith)
