-- ===== src/Bignum/Text.antt =====
-- The text that the limbs are printed as: it is the decimal print of their number, it fills the
-- buffer that was sized for it, and the limbs fit the capacity that was reserved for them.
use native.Mathlib.Nat.{pow-le-pow_right, pow-suc, add-zero}
use php_duckdb.Prelude.{
  ℕ, zero, suc, ◌+◌, ◌*◌, ◌/◌, ◌%◌, ◌^◌, ◌≤◌, ◌<◌, ◌≡◌, refl, ap, ◌∙◌, Bool, List, [], ◌∷◌, arith,
  tests, leb, ltb, Bool-cases, inl, inr, length, Bytes, All,
}
use php_duckdb.Prelude.Bits.{pow-add}
use php_duckdb.Prelude.Decimal.{
  emit, emit_padded, emit_last, emit_more, emit-emit_padded, length-emit_padded, decimal,
}
use php_duckdb.Bignum.{
  decimal_base, decimal_shift, or_zero, count_leading, back, text_prefix, output_length, emit_limbs,
  signed, maximum_limbs, magnitude_byte,
}
use php_duckdb.Bignum.Limbs.{limbs_value, IsCanonical}
use php_duckdb.Bignum.Words.{IsByte, big_endian, magnitude_byte-lt}

emit_limbs-emit :
    (d : ℕ) (ds : List ℕ) (out : Bytes)
    → IsCanonical (d ∷ ds)
    → emit_limbs (d ∷ ds) out ≡ emit (limbs_value (d ∷ ds)) out
unfolding emit_limbs
emit_limbs-emit d [] out c =
    ap (λ (t : ℕ). emit t out) {x = d} {y = d + decimal_base * 0} (omega arith)
emit_limbs-emit d (e ∷ ds) out (low, _, c) =
    emit_limbs-emit e ds (emit_padded decimal_shift d out) c
    ∙ emit-emit_padded decimal_shift d (limbs_value (e ∷ ds)) out low c.1

-- The limbs are printed as the decimal notation of their number.
pub emit_limbs-decimal :
    (ds : List ℕ) → IsCanonical ds → emit_limbs (or_zero ds) [] ≡ decimal (limbs_value ds)
unfolding decimal
emit_limbs-decimal [] c = unfold emit_limbs in refl
emit_limbs-decimal (d ∷ ds) c = emit_limbs-emit d ds [] c

count_leading-length :
    (fuel top n : ℕ) (out : Bytes)
    → top < fuel
    → count_leading fuel top n + length out + 1 ≡ length (emit top out) + n
unfolding count_leading
count_leading-length zero top n out h = absurd (omega arith)
count_leading-length (suc fuel) top n out h = elim (Bool-cases (leb 10 top)) [
  | inl large ↦
      rw (large, emit_more top out (omega tests))
        (omega (
          tests,
          count_leading-length fuel (top / 10) (n + 1) ((b'0' + top % 10) ∷ out) (omega tests),
        ))
  | inr small ↦ rw (small, emit_last top out (ground arith)) (omega arith)
]

length-emit_limbs :
    (d : ℕ) (ds : List ℕ) (out : Bytes)
    → length (emit_limbs (d ∷ ds) out)
      ≡ length ds * decimal_shift
        + count_leading (suc (back (d ∷ ds))) (back (d ∷ ds)) 1
        + length out
unfolding emit_limbs
length-emit_limbs d [] out = omega (arith, count_leading-length (suc d) d 1 out (omega arith))
length-emit_limbs d (e ∷ ds) out = omega (
  arith,
  length-emit_limbs e ds (emit_padded decimal_shift d out),
  length-emit_padded decimal_shift d out,
)

-- Exactly `output_length` bytes are written: the last one is at the start of the buffer.
length-signed :
    (negative : Bool) (ds : List ℕ)
    → length (signed negative (emit_limbs (or_zero ds) [])) ≡ output_length negative (or_zero ds)
unfolding signed output_length text_prefix
length-signed negative [] = ground (arith, length-emit_limbs 0 [] [])
length-signed negative (d ∷ ds) = ground (arith, length-emit_limbs d ds [])

-- Each limb below the top one takes more than 29 bits.
limbs_value-ge :
    (d : ℕ) (ds : List ℕ) → IsCanonical (d ∷ ds) → 2 ^ (29 * length ds) ≤ limbs_value (d ∷ ds)
limbs_value-ge d [] (_, positive, _) = omega arith
limbs_value-ge d (e ∷ ds) (_, _, c) =
    let n = length ds in
    let more : 2 ^ (29 * suc n) ≡ 2 ^ (29 * n) * 2 ^ 29 =
      ap (λ (t : ℕ). 2 ^ t) {y = 29 * n + 29} (omega arith) ∙ pow-add 2 (29 * n) 29 in
    omega (arith, limbs_value-ge e ds c, more)

big_endian-lt :
    (negative : Bool) (bs : Bytes) (acc k : ℕ)
    → All IsByte bs
    → acc < 2 ^ k
    → big_endian negative acc bs < 2 ^ (k + 8 * length bs)
big_endian-lt negative [] acc k h p = rw (add-zero k) p
big_endian-lt negative (b ∷ bs) acc k (h, hs) p =
    let next = acc * 256 + magnitude_byte negative b in
    let fits : next < 2 ^ (k + 8) = omega (arith, magnitude_byte-lt negative b h, pow-add 2 k 8) in
    let e : k + 8 * suc (length bs) ≡ k + 8 + 8 * length bs = omega arith in
    rw e (big_endian-lt negative bs next (k + 8) hs fits)

pow-lt→lt : (a b : ℕ) → 2 ^ a < 2 ^ b → a < b
pow-lt→lt a b h = elim (Bool-cases (ltb a b)) [
  | inl less ↦ omega tests
  | inr more ↦
      absurd (omega (arith, pow-le-pow_right {n = 2} (omega arith) {i = b} {j = a} (omega tests)))
]

-- The limbs of a number of so many bytes are no more than the capacity that is reserved.
pub length-le-maximum_limbs :
    (negative : Bool) (ds : List ℕ) (bs : Bytes)
    → IsCanonical ds
    → All IsByte bs
    → limbs_value ds ≡ big_endian negative 0 bs
    → length ds ≤ maximum_limbs (length bs)
length-le-maximum_limbs negative [] bs c h e = omega arith
length-le-maximum_limbs negative (d ∷ ds) bs c h e =
    let below : big_endian negative 0 bs < 2 ^ (0 + 8 * length bs) =
      big_endian-lt negative bs 0 0 h (omega arith) in
    let bits =
      pow-lt→lt (29 * length ds) (0 + 8 * length bs) (omega (arith, limbs_value-ge d ds c)) in
    omega arith

count_leading-le : (k fuel top n : ℕ) → top < 10 ^ suc k → count_leading fuel top n ≤ n + k
unfolding count_leading
count_leading-le k zero top n h = omega arith
count_leading-le zero (suc fuel) top n h = ground arith
count_leading-le (suc k) (suc fuel) top n h =
    ground (arith, count_leading-le k fuel (top / 10) (n + 1) (omega (arith, pow-suc 10 (suc k))))

back-lt : (d : ℕ) (ds : List ℕ) → IsCanonical (d ∷ ds) → back (d ∷ ds) < decimal_base
back-lt d [] c = c.0
back-lt d (e ∷ ds) (_, _, c) = back-lt e ds c

-- The part of the text above the full groups has a sign and nine digits at most.
pub text_prefix-le :
    (negative : Bool) (ds : List ℕ) → IsCanonical ds → text_prefix negative (or_zero ds) ≤ 10
unfolding text_prefix count_leading
text_prefix-le negative [] c = ground arith
text_prefix-le negative (d ∷ ds) c =
    let top = back (d ∷ ds) in ground (arith, count_leading-le 8 (suc top) top 1 (back-lt d ds c))
