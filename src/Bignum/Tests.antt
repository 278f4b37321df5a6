-- ===== src/Bignum/Tests.antt =====
-- Runs of the decoder, and its theorems at concrete cells.
use php_duckdb.Prelude.{
  ℕ, ◌-◌, ◌^◌, ◌≤◌, ◌<◌, ◌≡◌, refl, true, [], ◌∷◌, some, arith, length, Bytes, codes,
}
use php_duckdb.Prelude.Decimal.{decimal}
use php_duckdb.Bignum.{
  Limits, Cell, decoded, invalid, bad_header, unsupported_format, supported_format, limbs, render,
  convert, decode_bytes, decode_cell, decode_bignum, is_negative, declared, signed, text_prefix,
  emit_limbs, magnitude_byte,
}
use php_duckdb.Bignum.Decode.{IsCell, decode_bignum-decoded, HasHeader}
use php_duckdb.Bignum.Format.{store_all, IsRoomy, leading, decode_bignum-store}

-- A 64-bit build.
abbrev ordinary : Limits
ordinary = record {
  size_max = 2 ^ 64 - 1;
  vector_max = 2 ^ 61 - 1;
  zstr_max = 2 ^ 63;
  reserves = λ n. true;
}

ordinary-IsRoomy : IsRoomy ordinary
ordinary-IsRoomy = record {
  words = refl;
  vector = omega arith;
  strings = omega arith;
  bounded = omega arith;
  reserves = λ n. refl;
}

-- -4294967303, in two words.
abbrev minus_cell : ℕ → Cell
minus_cell row = record {
  len = 8;
  bytes = some (127 ∷ 255 ∷ 250 ∷ 254 ∷ 255 ∷ 255 ∷ 255 ∷ 248 ∷ []);
}

abbrev minus_stored : Bytes
minus_stored = 127 ∷ 255 ∷ 250 ∷ 254 ∷ 255 ∷ 255 ∷ 255 ∷ 248 ∷ []

minus_runs :
    decode_bignum ordinary (some (codes "v2.0.0")) (some minus_cell) 5
    ≡ decoded (codes "-4294967303")
unfolding decode_bignum supported_format decode_cell decode_bytes convert render is_negative
    declared limbs text_prefix emit_limbs signed
minus_runs = refl

wrong_version :
    decode_bignum ordinary (some (codes "v1.5.6")) (some minus_cell) 0 ≡ invalid unsupported_format
unfolding decode_bignum supported_format
wrong_version = refl

minus_zero :
    decode_cell ordinary (record { len = 4; bytes = some (127 ∷ 255 ∷ 254 ∷ 255 ∷ []) })
    ≡ invalid bad_header
unfolding decode_cell decode_bytes is_negative declared
minus_zero = refl

minus-IsCell : IsCell (minus_cell 5) minus_stored
minus-IsCell = record { pointed = refl; whole = refl; all_bytes = omega arith }

decode_bignum-store_example :
    decode_bignum ordinary (some (codes "v2.0.0")) (some minus_cell) 5
    ≡ decoded (codes "-4294967303")
unfolding supported_format store_all signed decimal magnitude_byte
decode_bignum-store_example =
    decode_bignum-store ordinary (codes "v2.0.0") minus_cell 5 true (1 ∷ 0 ∷ 0 ∷ 0 ∷ 7 ∷ [])
      ordinary-IsRoomy refl
      (leading 1 (0 ∷ 0 ∷ 0 ∷ 7 ∷ []) (omega arith) (omega arith) (omega arith)) minus-IsCell

decode_bignum-decoded_example :
    (supported_format (some (codes "v2.0.0")) ≡ true)
    × (3 < length minus_stored)
    × (length minus_stored ≤ 8388610)
    × HasHeader minus_stored 5
    × (codes "-4294967303" ≡ codes "-4294967303")
unfolding is_negative signed decimal magnitude_byte
decode_bignum-decoded_example =
    decode_bignum-decoded ordinary (some (codes "v2.0.0")) (some minus_cell) 5 minus_cell
      minus_stored (codes "-4294967303") refl minus-IsCell minus_runs
