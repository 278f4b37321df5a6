-- ===== src/Bignum.antt =====
-- src/bignum_decode.cpp: a stored BIGNUM becomes its decimal text. The stored form is a header of
-- three bytes and a big-endian magnitude; a negative number has all its bytes complemented.
pub mod Words
pub mod Limbs
pub mod Text
pub mod Decode
pub mod Format
mod Tests
use Prim.Native.Nat.{bit_or, bit_and}
use php_duckdb.Prelude.{
  ℕ, zero, suc, ◌+◌, ◌-◌, ◌*◌, ◌/◌, ◌%◌, ◌^◌, Bool, true, false, not, ◌&&◌, ◌||◌, List, [], ◌∷◌,
  Option, none, some, Bytes, codes, ltb, leb, ◌==◌, if◌then◌else◌, length, get_or, has_prefix,
}
use php_duckdb.Prelude.Decimal.{emit, emit_padded}

abbrev pub header_size : ℕ
header_size = 3

abbrev pub maximum_payload : ℕ
maximum_payload = 8388607

abbrev pub decimal_base : ℕ
decimal_base = 1000000000

abbrev pub decimal_shift : ℕ
decimal_shift = 9

-- The messages that `invalid_bignum` throws.
pub data Invalid : Type 0 where
  unsupported_format no_vector_data bad_length no_cell_data bad_header : Invalid
  size_overflow limbs_exceed_vector string_too_long no_memory : Invalid

pub data Outcome : Type 0 where
  decoded : Bytes → Outcome
  invalid : Invalid → Outcome

-- A `duckdb_string_t`: its length, and its bytes unless the pointer is null.
pub record Cell : Type 0 where
  pub len : ℕ
  pub bytes : Option Bytes

-- What the C++ library and PHP fix: the greatest `size_t`, `vector<uint32_t>::max_size()`,
-- `ZSTR_MAX_LEN`, and whether `reserve` of so many limbs succeeds.
pub record Limits : Type 0 where
  pub size_max : ℕ
  pub vector_max : ℕ
  pub zstr_max : ℕ
  pub reserves : ℕ → Bool

-- `duckdb_library_version()` is null or a text.
unfoldable pub supported_format : Option Bytes → Bool
supported_format none = false
supported_format (some v) = has_prefix (codes "v2.0.") v || has_prefix (codes "2.0.") v

abbrev pub byte_at : Bytes → ℕ → ℕ
byte_at stored k = get_or stored k 0

-- `~byte` cut to eight bits is `255 - byte`.
unfoldable pub magnitude_byte : Bool → ℕ → ℕ
magnitude_byte negative b = if negative then 255 - b else b

unfoldable pub is_negative : Bytes → Bool
is_negative stored = bit_and (byte_at stored 0) 0x80 == 0

unfoldable pub declared : Bool → Bytes → ℕ
unfolding magnitude_byte
declared negative stored =
    bit_or
      (bit_or (bit_and (magnitude_byte negative (byte_at stored 0)) 0x7f * 2 ^ 16)
        (magnitude_byte negative (byte_at stored 1) * 2 ^ 8))
      (magnitude_byte negative (byte_at stored 2))

module _ (negative : Bool) (stored : Bytes) (padding : ℕ) where
  -- One round of the inner loop: byte `j` of the word at `i` goes to its place, unless it is padding.
  unfoldable pub word_byte : ℕ → ℕ → ℕ → ℕ
  unfolding magnitude_byte
  word_byte i j hi =
      if leb padding (i + j)
      then bit_or hi (
          magnitude_byte negative (byte_at stored (header_size + (i + j) - padding))
          * 2 ^ (8 * (3 - j)))
      else hi

  unfoldable pub read_word : ℕ → ℕ
  unfolding word_byte
  read_word i = word_byte i 3 (word_byte i 2 (word_byte i 1 (word_byte i 0 0)))

-- `while (hi) { digits.push_back(hi % decimal_base); hi /= decimal_base; }`
pub push_rest : ℕ → ℕ → List ℕ
push_rest zero hi = []
push_rest (suc fuel) hi =
    let rest = push_rest fuel (hi / decimal_base) in
    if hi == 0 then [] else (hi % decimal_base) ∷ rest

-- The pass over the limbs, least significant first: each becomes the low part of
-- `(digit << 32) | hi`, and `hi` the high part; what is left of `hi` is pushed behind them.
unfoldable pub add_word : ℕ → List ℕ → List ℕ
unfolding push_rest
add_word hi [] = push_rest (suc hi) hi
add_word hi (digit ∷ digits) =
    let tmp = bit_or (digit * 2 ^ 32) hi in
    let hi' = tmp / decimal_base % 2 ^ 32 in
    let digit' = (tmp + 2 ^ 64 - decimal_base * hi') % 2 ^ 64 % 2 ^ 32 in
    digit' ∷ add_word hi' digits

-- `for (i = 0; i < padded_size; i += 4)`, by the rounds that are left.
unfoldable pub convert_words : Bool → Bytes → ℕ → ℕ → ℕ → List ℕ → List ℕ
unfolding read_word add_word
convert_words negative stored padding zero i digits = digits
convert_words negative stored padding (suc rounds) i digits =
    convert_words negative stored padding rounds (i + 4)
      (add_word (read_word negative stored padding i) digits)

abbrev pub padding_of : ℕ → ℕ
padding_of payload = (4 - payload % 4) % 4

abbrev pub maximum_limbs : ℕ → ℕ
maximum_limbs payload = (payload * 8 + 28) / 29

unfoldable pub limbs : Bool → Bytes → ℕ → List ℕ
unfolding convert_words
limbs negative stored payload =
    let padding = padding_of payload in
    convert_words negative stored padding ((payload + padding) / 4) 0 []

-- `if (digits.empty()) digits.push_back(0);`
abbrev pub or_zero : List ℕ → List ℕ
or_zero [] = 0 ∷ []
or_zero (d ∷ ds) = d ∷ ds

-- `for (top = …; top >= 10; top /= 10) ++leading_digits;`
pub count_leading : ℕ → ℕ → ℕ → ℕ
count_leading zero top n = n
count_leading (suc fuel) top n =
    let rest = count_leading fuel (top / 10) (n + 1) in if leb 10 top then rest else n

abbrev pub back : List ℕ → ℕ
back [] = 0
back (d ∷ []) = d
back (d ∷ e ∷ ds) = back (e ∷ ds)

unfoldable pub text_prefix : Bool → List ℕ → ℕ
unfolding count_leading
text_prefix negative digits =
    count_leading (suc (back digits)) (back digits) 1 + (if negative then 1 else 0)

unfoldable pub output_length : Bool → List ℕ → ℕ
unfolding text_prefix
output_length negative digits = (length digits - 1) * decimal_shift + text_prefix negative digits

-- The buffer is filled from its end: nine digits for each limb below the top one, then the top limb
-- with no padding, then the sign.
unfoldable pub emit_limbs : List ℕ → Bytes → Bytes
unfolding emit emit_padded
emit_limbs [] out = out
emit_limbs (d ∷ []) out = emit d out
emit_limbs (d ∷ e ∷ ds) out = emit_limbs (e ∷ ds) (emit_padded decimal_shift d out)

unfoldable pub signed : Bool → Bytes → Bytes
signed negative text = if negative then b'-' ∷ text else text

unfoldable pub render : Limits → Bool → List ℕ → Outcome
render lim negative digits =
    if ltb ((lim.zstr_max + 2 ^ 64 - text_prefix negative digits) % 2 ^ 64 / decimal_shift)
      (length digits - 1)
    then invalid string_too_long
    else decoded (signed negative (emit_limbs digits []))

unfoldable pub convert : Limits → Bool → Bytes → ℕ → Outcome
convert lim negative stored payload =
    if ltb ((lim.size_max - 28) / 8) payload
    then invalid size_overflow
    else if ltb lim.vector_max (maximum_limbs payload)
    then invalid limbs_exceed_vector
    else if lim.reserves (maximum_limbs payload)
    then render lim negative (or_zero (limbs negative stored payload))
    else invalid no_memory

unfoldable pub decode_bytes : Limits → Bytes → ℕ → Outcome
decode_bytes lim stored payload =
    let negative = is_negative stored in
    let first = magnitude_byte negative (byte_at stored 3) in
    if not (declared negative stored == payload)
      || (ltb 1 payload && first == 0)
      || (negative && payload == 1 && first == 0)
    then invalid bad_header
    else convert lim negative stored payload

unfoldable pub decode_cell : Limits → Cell → Outcome
decode_cell lim cell =
    if leb cell.len header_size || ltb maximum_payload (cell.len - header_size)
    then invalid bad_length
    else elim cell.bytes [
      | none ↦ invalid no_cell_data
      | some stored ↦ decode_bytes lim stored (cell.len - header_size)
    ]

-- `duckdb_decode_bignum`: the version of the library, the vector's cells if it has any, the row.
unfoldable pub decode_bignum : Limits → Option Bytes → Option (ℕ → Cell) → ℕ → Outcome
decode_bignum lim version cells row =
    if supported_format version
    then (elim cells [ none ↦ invalid no_vector_data | some cell ↦ decode_cell lim (cell row) ])
    else invalid unsupported_format
