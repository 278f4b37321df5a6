-- ===== src/Bignum/Words.antt =====
-- The words that the conversion reads are the magnitude, padded in front to whole words.
use php_duckdb.Prelude.{
  ℕ, zero, suc, ◌+◌, ◌-◌, ◌*◌, ◌/◌, ◌^◌, ◌≤◌, ◌<◌, ◌≡◌, refl, ap, ◌∙◌, Bool, true, List, [], ◌∷◌,
  arith, leb, Bool-cases, inl, inr, length, Bytes, drop, length-drop, All, get_or, if◌then◌else◌,
}
use native.Mathlib.Numerals.{add-one, add-two, add-three}
use php_duckdb.Prelude.Bits.{high-or-low}
use php_duckdb.Bignum.{
  header_size, byte_at, magnitude_byte, word_byte, read_word, add_word, convert_words, padding_of,
  limbs,
}
use php_duckdb.Bignum.Limbs.{limbs_value, IsCanonical, add_word-value, add_word-IsCanonical}

abbrev pub IsByte : ℕ → Type 0
IsByte b = b < 256

-- The number that big-endian magnitude bytes spell behind `acc`.
abbrev pub big_endian : Bool → ℕ → Bytes → ℕ
big_endian negative acc [] = acc
big_endian negative acc (b ∷ bs) = big_endian negative (acc * 256 + magnitude_byte negative b) bs

byte_at-lt : (stored : Bytes) (k : ℕ) → All IsByte stored → byte_at stored k < 256
byte_at-lt [] k h = omega arith
byte_at-lt (b ∷ bs) zero h = h.0
byte_at-lt (b ∷ bs) (suc k) h = byte_at-lt bs k h.1

pub magnitude_byte-lt : (negative : Bool) (b : ℕ) → b < 256 → magnitude_byte negative b < 256
unfolding magnitude_byte
magnitude_byte-lt negative b h = ground arith

module _ (negative : Bool) (stored : Bytes) (padding : ℕ) where
  padded_byte : ℕ → ℕ
  padded_byte k =
      if leb padding k
      then magnitude_byte negative (byte_at stored (header_size + k - padding))
      else 0

  -- The number that the first `k` bytes of the padded magnitude spell.
  pub prefix_value : ℕ → ℕ
  prefix_value zero = 0
  prefix_value (suc k) = prefix_value k * 256 + padded_byte k

  module _ (bytes : All IsByte stored) where
    padded_byte-lt : (k : ℕ) → padded_byte k < 256
    unfolding padded_byte
    padded_byte-lt k = ground (
      arith,
      magnitude_byte-lt negative (byte_at stored (header_size + k - padding)),
      byte_at-lt stored (header_size + k - padding) bytes,
    )

    -- A round joins the byte below the `k` bits at which the word so far ends.
    word_byte_lem :
        (i j hi q k : ℕ)
        → hi ≡ q * 2 ^ k
        → padded_byte (i + j) * 2 ^ (8 * (3 - j)) < 2 ^ k
        → word_byte negative stored padding i j hi ≡ hi + padded_byte (i + j) * 2 ^ (8 * (3 - j))
    unfolding word_byte padded_byte
    word_byte_lem i j hi q k e fits = elim (Bool-cases (leb padding (i + j))) [
      | inl inside ↦
          let b = magnitude_byte negative (byte_at stored (header_size + (i + j) - padding)) in
          rw (inside, e) (high-or-low k q (b * 2 ^ (8 * (3 - j))) (rw inside at fits))
      | inr outside ↦ rw outside (omega arith)
    ]

    read_word-value :
        (i : ℕ)
        → read_word negative stored padding i
          ≡ padded_byte (i + 0) * 2 ^ 24
            + padded_byte (i + 1) * 2 ^ 16
            + padded_byte (i + 2) * 2 ^ 8
            + padded_byte (i + 3)
    unfolding read_word
    read_word-value i =
        let b0 = padded_byte-lt (i + 0) in
        let b1 = padded_byte-lt (i + 1) in
        let b2 = padded_byte-lt (i + 2) in
        let b3 = padded_byte-lt (i + 3) in
        let w0 = word_byte negative stored padding i 0 0 in
        let h0 = word_byte_lem i 0 0 0 32 refl (omega arith) in
        let w1 = word_byte negative stored padding i 1 w0 in
        let h1 = word_byte_lem i 1 w0 (padded_byte (i + 0)) 24 (omega arith) (omega arith) in
        let w2 = word_byte negative stored padding i 2 w1 in
        let h2 =
          word_byte_lem i 2 w1 (padded_byte (i + 0) * 256 + padded_byte (i + 1)) 16 (omega arith)
            (omega arith) in
        let h3 =
          word_byte_lem i 3 w2
            ((padded_byte (i + 0) * 256 + padded_byte (i + 1)) * 256 + padded_byte (i + 2)) 8
            (omega arith) (omega arith) in
        omega arith

    read_word-lt : (i : ℕ) → read_word negative stored padding i < 2 ^ 32
    read_word-lt i = omega (
      arith,
      read_word-value i,
      padded_byte-lt (i + 0),
      padded_byte-lt (i + 1),
      padded_byte-lt (i + 2),
      padded_byte-lt (i + 3),
    )

    -- A word is the next four bytes of the padded magnitude.
    prefix_value_word :
        (i : ℕ)
        → prefix_value (i + 4) ≡ prefix_value i * 2 ^ 32 + read_word negative stored padding i
    unfolding prefix_value
    prefix_value_word i = rw (four i) (
        omega (
          arith,
          read_word-value i,
          ap padded_byte (zeroth i),
          ap padded_byte (add-one i),
          ap padded_byte (add-two i),
          ap padded_byte (add-three i),
        ))
      where
        zeroth : (i : ℕ) → i + 0 ≡ i
        zeroth i = omega arith

        four : (i : ℕ) → i + 4 ≡ suc (suc (suc (suc i)))
        four i = omega arith

    convert_words-value :
        (rounds i : ℕ) (digits : List ℕ)
        → IsCanonical digits
        → limbs_value digits ≡ prefix_value i
        → IsCanonical (convert_words negative stored padding rounds i digits)
          × (limbs_value (convert_words negative stored padding rounds i digits)
              ≡ prefix_value (i + rounds * 4))
    unfolding convert_words
    convert_words-value zero i digits c e = (c, e ∙ ap prefix_value (omega arith))
    convert_words-value (suc rounds) i digits c e =
        let word = read_word negative stored padding i in
        let small = read_word-lt i in
        let (c', e') =
          convert_words-value rounds (i + 4) (add_word word digits)
            (add_word-IsCanonical word digits small c)
            (omega (arith, add_word-value word digits small c, prefix_value_word i)) in
        (c', e' ∙ ap prefix_value (omega arith))

  -- The padding adds nothing in front.
  prefix_value_padding : (k : ℕ) → k ≤ padding → prefix_value k ≡ 0
  unfolding prefix_value padded_byte
  prefix_value_padding zero h = refl
  prefix_value_padding (suc k) h = ground (arith, prefix_value_padding k)

  drop_next :
      (k : ℕ) (xs : Bytes) {b : ℕ} {bs : Bytes}
      → drop k xs ≡ b ∷ bs
      → (get_or xs k 0 ≡ b) × (drop (suc k) xs ≡ bs)
  drop_next zero [] e = cc
  drop_next zero (x ∷ xs) e = (ground arith, ground arith)
  drop_next (suc k) [] e = cc
  drop_next (suc k) (x ∷ xs) e = drop_next k xs e

  prefix_value_next :
      (k : ℕ)
      → prefix_value (padding + (k + 1))
        ≡ prefix_value (padding + k) * 256
          + magnitude_byte negative (byte_at stored (header_size + k))
  unfolding prefix_value padded_byte
  prefix_value_next k =
      let up : padding + (k + 1) ≡ suc (padding + k) = omega arith in
      let place : header_size + (padding + k) - padding ≡ header_size + k = omega arith in
      let inside : leb padding (padding + k) ≡ true = ground arith in rw (up, inside, place)

  prefix_value-big_endian :
      (rest : Bytes) (k : ℕ)
      → drop (header_size + k) stored ≡ rest
      → prefix_value (padding + k + length rest)
        ≡ big_endian negative (prefix_value (padding + k)) rest
  prefix_value-big_endian [] k e = ap prefix_value (omega arith)
  prefix_value-big_endian (b ∷ bs) k e =
      let (here, there) = drop_next (header_size + k) stored e in
      let there' : drop (header_size + (k + 1)) stored ≡ bs =
        ap (λ (t : ℕ). drop t stored) {y = suc (header_size + k)} (omega arith) ∙ there in
      ap prefix_value (omega arith)
      ∙ prefix_value-big_endian bs (k + 1) there'
      ∙ ap (λ (t : ℕ). big_endian negative t bs)
          (prefix_value_next k
            ∙ ap (λ (t : ℕ). prefix_value (padding + k) * 256 + magnitude_byte negative t) here)

padding_fills :
    (payload : ℕ) → (payload + padding_of payload) / 4 * 4 ≡ padding_of payload + payload
padding_fills payload = omega arith

module _ (negative : Bool) (stored : Bytes) (payload : ℕ) (bytes : All IsByte stored) where
  limbs_lem :
      IsCanonical (limbs negative stored payload)
      × (limbs_value (limbs negative stored payload)
          ≡ prefix_value negative stored (padding_of payload) (padding_of payload + payload))
  unfolding limbs prefix_value
  limbs_lem =
      let padding = padding_of payload in
      let (c, e) =
        convert_words-value negative stored padding bytes ((payload + padding) / 4) 0 [] tt refl in
      (c, e ∙ ap (prefix_value negative stored padding) (omega (arith, padding_fills payload)))

  pub limbs-IsCanonical : IsCanonical (limbs negative stored payload)
  limbs-IsCanonical = limbs_lem.0

  -- The limbs stand for the number that the payload spells.
  pub limbs-big_endian :
      length stored ≡ header_size + payload
      → limbs_value (limbs negative stored payload)
        ≡ big_endian negative 0 (drop header_size stored)
  limbs-big_endian whole =
      let padding = padding_of payload in
      let rest = drop header_size stored in
      let spelled = prefix_value-big_endian negative stored padding rest 0 refl in
      let none_yet : prefix_value negative stored padding (padding + 0) ≡ 0 =
        ap (prefix_value negative stored padding) (omega arith)
        ∙ prefix_value_padding negative stored padding padding (omega arith) in
      limbs_lem.1
      ∙ ap (prefix_value negative stored padding)
          (omega (arith, whole, length-drop header_size stored))
      ∙ spelled
      ∙ ap (λ (t : ℕ). big_endian negative t rest) none_yet
