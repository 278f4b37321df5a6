-- ===== src/Variant/Tests.antt =====
-- The reader at concrete payloads.
use php_duckdb.Prelude.{◌+◌, ◌==◌, false, some, ◌≡◌, refl, [], ◌∷◌, arith, codes}
use php_duckdb.Variant.{
  Reader, done, invalid, truncated, invalid_varint, take_bytes, native_byte, varint_loop, varint,
}
use php_duckdb.Prelude.Int.{pos}
use php_duckdb.Variant.Real.{Floats, real, from_digits, fixed}
use php_duckdb.Variant.Geometry.{Flags, geometry}
use php_duckdb.Variant.Geometry.Encode.{
  Geometry, a_point, a_line, a_collection, more, no_more, stored, text_of, IsStorable, levels,
}
use php_duckdb.Variant.Geometry.RoundTrip.{geometry-stored}
use php_duckdb.Prelude.{true, false, ℕ, List, ◌≡◌, ◌++◌, get_or}
use php_duckdb.Variant.Quote.{quote, read_json_string}
use php_duckdb.Variant.Quote.Utf8.{is_utf8, reads_utf8, quote-read_json_string}
use php_duckdb.Variant.Decode.{Column, Lists, Vector, Decoder, Engine, not_made}
use php_duckdb.Variant.Stored.{
  Json, a_natural, a_string, an_object, an_array, no_members, a_member, no_items, an_item,
}

-- Behind two other bytes.
abbrev payload : Reader
payload = record { bytes = 9 ∷ 9 ∷ 172 ∷ 2 ∷ 7 ∷ []; position = 2 }

too_large :
    varint (record { bytes = 255 ∷ 255 ∷ 255 ∷ 255 ∷ 16 ∷ []; position = 0 })
    ≡ invalid invalid_varint
unfolding varint_loop native_byte take_bytes
too_large = refl

cut_short : varint (record { bytes = 200 ∷ []; position = 0 }) ≡ invalid truncated
unfolding varint_loop native_byte take_bytes
cut_short = refl

-- Numbers of one digit, each its own bits.
abbrev digits_only : Floats
digits_only = record {
  is_nan = λ x. false;
  is_infinite = λ x. false;
  is_zero = λ x. x == 0;
  has_sign = λ x. false;
  dtoa = λ x. some ((b'0' + x) ∷ [], pos 1, false);
}

abbrev flat : Flags
flat = record { has_z = false; has_m = false }

abbrev sample : Geometry
sample = a_collection (more (a_point (1 ∷ 2 ∷ [])) (more (a_line []) no_more))

sample-IsStorable : IsStorable digits_only flat sample
unfolding IsStorable stored real from_digits fixed
sample-IsStorable = (
  omega arith,
  ((refl, ((omega arith, refl), ((omega arith, refl), tt))), ((omega arith, tt), tt)),
)

geometry-stored_example :
    geometry digits_only (stored flat sample)
    ≡ done
        (codes "GEOMETRYCOLLECTION (POINT (1 2), LINESTRING EMPTY)")
        (record { bytes = stored flat sample; position = 39 })
unfolding stored text_of real from_digits fixed levels
geometry-stored_example = geometry-stored digits_only flat sample (omega arith) sample-IsStorable

-- With the letter e with an acute accent.
quote-read_json_string_example :
    (read_json_string (quote (b'a' ∷ b'"' ∷ 1 ∷ 0xc3 ∷ 0xa9 ∷ []) ++ codes ",")
      ≡ some (b'a' ∷ b'"' ∷ 1 ∷ 0xc3 ∷ 0xa9 ∷ [], codes ","))
    × (is_utf8 (quote (b'a' ∷ b'"' ∷ 1 ∷ 0xc3 ∷ 0xa9 ∷ []))
        ≡ is_utf8 (b'a' ∷ b'"' ∷ 1 ∷ 0xc3 ∷ 0xa9 ∷ []))
quote-read_json_string_example =
    quote-read_json_string (b'a' ∷ b'"' ∷ 1 ∷ 0xc3 ∷ 0xa9 ∷ []) (codes ",")

valid_utf8 : is_utf8 (b'a' ∷ 0xc3 ∷ 0xa9 ∷ []) ≡ true
unfolding reads_utf8
valid_utf8 = refl

lone_byte : is_utf8 (b'a' ∷ 200 ∷ []) ≡ false
unfolding reads_utf8
lone_byte = refl

abbrev cells_of : {A : Type 0} → List A → A → Column A
cells_of xs a = record { fits = true; is_valid = λ i. true; cells = some (λ i. get_or xs i a) }

abbrev list_of : ℕ → Lists
list_of n = record {
  column = cells_of (record { offset = 0; extent = n } ∷ []) (record { offset = 0; extent = 0 });
  size = n;
  child_fits = true;
}

-- The members "b" and "a" of an object, a text and a list of one number.
abbrev stored_object : Vector
stored_object = record {
  keys = list_of 2;
  children = list_of 3;
  values = list_of 4;
  key_names = cells_of (codes "b" ∷ codes "a" ∷ []) [];
  children_layout = true;
  keys_index = cells_of (0 ∷ 1 ∷ []) 0;
  values_index = cells_of (1 ∷ 2 ∷ 3 ∷ []) 0;
  values_layout = true;
  type_id = cells_of (29 ∷ 16 ∷ 30 ∷ 8 ∷ []) 0;
  byte_offset = cells_of (0 ∷ 2 ∷ 4 ∷ 6 ∷ []) 0;
  blob = cells_of ((2 ∷ 0 ∷ 1 ∷ b'x' ∷ 1 ∷ 2 ∷ 7 ∷ []) ∷ []) [];
}

abbrev opened : Decoder
opened = record {
  vector = stored_object;
  keys = record { offset = 0; extent = 2 };
  children = record { offset = 0; extent = 3 };
  values = record { offset = 0; extent = 4 };
  blob = record { bytes = 2 ∷ 0 ∷ 1 ∷ b'x' ∷ 1 ∷ 2 ∷ 7 ∷ []; position = 0 };
}

abbrev no_engine : Engine
no_engine = record { text_of = λ v. not_made; floats = digits_only; widen = λ n. n }

abbrev object_value : Json
object_value = an_object (
    a_member (codes "b") (a_string (codes "x"))
      (a_member (codes "a") (an_array (an_item (a_natural 7) no_items)) no_members))
