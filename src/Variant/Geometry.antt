-- ===== src/Variant/Geometry.antt =====
-- `geometry` of src/variant_decode.cpp: a geometry of a VARIANT payload as text.
pub mod Reads
pub mod Encode
pub mod Texts
pub mod RoundTrip
use Prim.Native.Nat.{bit_and}
use php_duckdb.Prelude.{
  ℕ, zero, suc, ◌+◌, ◌/◌, ◌%◌, ◌^◌, Bool, true, false, not, ◌&&◌, ◌||◌, List, [], ◌∷◌, ◌++◌, Option,
  none, some, Bytes, codes, ◌==◌, if◌then◌else◌,
}
use php_duckdb.Variant.{
  Reader, Message, Read, done, invalid, unrendered, invalid_geometry, trailing_bytes, and_then,
  remaining, read_unsigned,
}
use php_duckdb.Variant.Real.{Floats, real}

abbrev pub maximum_depth : ℕ
maximum_depth = 64

-- The types of geometries.
pub data Kind : Type 0 where
  point linestring polygon multipoint multilinestring multipolygon collection unknown : Kind

abbrev pub kind_of : ℕ → Kind
kind_of t =
    if t == 1
    then point
    else if t == 2
    then linestring
    else if t == 3
    then polygon
    else if t == 4
    then multipoint
    else if t == 5
    then multilinestring
    else if t == 6
    then multipolygon
    else if t == 7
    then collection
    else unknown

-- Which dimensions there are beside two.
pub record Flags : Type 0 where
  pub has_z : Bool
  pub has_m : Bool

abbrev pub low_half : ℕ → ℕ
low_half meta = bit_and meta 65535

abbrev pub kind_in : ℕ → Kind
kind_in meta = kind_of (low_half meta % 1000)

abbrev pub flags_in : ℕ → Flags
flags_in meta = record {
  has_z = not (bit_and (low_half meta / 1000) 1 == 0);
  has_m = not (bit_and (low_half meta / 1000) 2 == 0);
}

abbrev pub same_bool : Bool → Bool → Bool
same_bool true b = b
same_bool false b = not b

abbrev pub same_flags : Flags → Flags → Bool
same_flags a b = same_bool a.has_z b.has_z && same_bool a.has_m b.has_m

abbrev pub dims : Flags → ℕ
dims flags = 2 + (if flags.has_z then 1 else 0) + (if flags.has_m then 1 else 0)

abbrev pub flag_text : Flags → Bytes
flag_text flags =
    if flags.has_z
    then (if flags.has_m then codes " ZM " else codes " Z ")
    else (if flags.has_m then codes " M " else codes " ")

abbrev pub rendered : Option Bytes → Reader → Read Bytes
rendered none r = invalid unrendered
rendered (some text) r = done text r

abbrev pub separated : Bool → Bytes → Bytes → Bytes
separated first separator text = if first then text else separator ++ text

-- The loop over the coordinates of a vertex; the flag says whether the first one is still to come.
unfoldable pub vertex : Floats → ℕ → Bool → Reader → Read Bytes
vertex f zero first r = done [] r
vertex f (suc n) first r = and_then (read_unsigned 8 r) (λ x r1.
    and_then (rendered (real f true x) r1) (λ text r2.
      and_then (vertex f n false r2)
        (λ more r3. done (separated first (codes " ") text ++ more) r3)))

-- A loop over parts with `, ` between them.
unfoldable pub items : (Reader → Read Bytes) → ℕ → Bool → Reader → Read Bytes
items part zero first r = done [] r
items part (suc n) first r = and_then (part r) (λ text r1.
    and_then (items part n false r1)
      (λ more r2. done (separated first (codes ", ") text ++ more) r2))

abbrev pub in_parentheses : Bytes → Bytes
in_parentheses text = b'(' ∷ (text ++ (b')' ∷ []))

-- The parts that a non-empty count announces, in parentheses.
abbrev pub nonempty : (Reader → Read Bytes) → ℕ → Reader → Read Bytes
nonempty part zero r = done (codes "EMPTY") r
nonempty part (suc n) r =
    and_then (items part (suc n) true r) (λ text r1. done (in_parentheses text) r1)

abbrev pub counted : (Reader → Read Bytes) → Reader → Read Bytes
counted part r = and_then (read_unsigned 4 r) (λ count r1. nonempty part count r1)

abbrev pub line : Floats → Flags → Reader → Read Bytes
line f flags = counted (vertex f (dims flags) true)

abbrev pub rings : Floats → Flags → Reader → Read Bytes
rings f flags = counted (line f flags)

-- The coordinates of a point are all read before the first one is written.
unfoldable pub coordinates : ℕ → Reader → Read (List ℕ)
coordinates zero r = done [] r
coordinates (suc n) r =
    and_then (read_unsigned 8 r) (λ x r1. and_then (coordinates n r1) (λ xs r2. done (x ∷ xs) r2))

abbrev pub all_nan : Floats → List ℕ → Bool
all_nan f [] = true
all_nan f (x ∷ xs) = f.is_nan x && all_nan f xs

unfoldable pub written : Floats → List ℕ → Bool → Reader → Read Bytes
written f [] first r = done [] r
written f (x ∷ xs) first r = and_then (rendered (real f true x) r) (λ text r1.
    and_then (written f xs false r1)
      (λ more r2. done (separated first (codes " ") text ++ more) r2))

-- The body of a point; that of a part of a MULTIPOINT has no parentheses.
abbrev pub point_body : Floats → Flags → (Bytes → Bytes) → Reader → Read Bytes
point_body f flags wrap r = and_then (coordinates (dims flags) r) (λ xs r1.
    if all_nan f xs
    then done (codes "EMPTY") r1
    else and_then (written f xs true r1) (λ text r2. done (wrap text) r2))

abbrev pub same_kind : Kind → Kind → Bool
same_kind point point = true
same_kind linestring linestring = true
same_kind polygon polygon = true
same_kind a b = false

-- The byte order and the type of a part, which has the dimensions of the whole.
abbrev pub part : Kind → Flags → (Reader → Read Bytes) → Reader → Read Bytes
part kind flags body r = and_then (read_unsigned 1 r) (λ order r1.
    if not (order == 1)
    then invalid invalid_geometry
    else and_then (read_unsigned 4 r1) (λ meta r2.
      if not (same_kind kind (kind_in meta))
      then invalid invalid_geometry
      else if not (same_flags flags (flags_in meta))
      then invalid invalid_geometry
      else body r2))

abbrev pub named : Bytes → Flags → (Reader → Read Bytes) → Reader → Read Bytes
named name flags body r = and_then (body r) (λ text r1. done (name ++ flag_text flags ++ text) r1)

abbrev pub multipoint_body : Floats → Flags → Reader → Read Bytes
multipoint_body f flags = counted (part point flags (point_body f flags (λ text. text)))

abbrev pub multilinestring_body : Floats → Flags → Reader → Read Bytes
multilinestring_body f flags = counted (part linestring flags (line f flags))

abbrev pub multipolygon_body : Floats → Flags → Reader → Read Bytes
multipolygon_body f flags = counted (part polygon flags (rings f flags))

-- The cases of the type, with the reading of a geometry inside a collection.
abbrev pub body_of : Floats → Kind → Flags → (Reader → Read Bytes) → Reader → Read Bytes
body_of f point flags inner = named (codes "POINT") flags (point_body f flags in_parentheses)
body_of f linestring flags inner = named (codes "LINESTRING") flags (line f flags)
body_of f polygon flags inner = named (codes "POLYGON") flags (rings f flags)
body_of f multipoint flags inner = named (codes "MULTIPOINT") flags (multipoint_body f flags)
body_of f multilinestring flags inner =
    named (codes "MULTILINESTRING") flags (multilinestring_body f flags)
body_of f multipolygon flags inner = named (codes "MULTIPOLYGON") flags (multipolygon_body f flags)
body_of f collection flags inner = named (codes "GEOMETRYCOLLECTION") flags (counted inner)
body_of f unknown flags inner = λ r. invalid invalid_geometry

abbrev pub fits_parent : Option Flags → Flags → Bool
fits_parent none flags = true
fits_parent (some parent) flags = same_flags parent flags

-- `ToStringRecursive` with so many levels left; a geometry inside another one has its dimensions.
unfoldable pub to_string : Floats → ℕ → Option Flags → Reader → Read Bytes
to_string f zero parent r = invalid invalid_geometry
to_string f (suc levels) parent r = and_then (read_unsigned 1 r) (λ order r1.
    if not (order == 1)
    then invalid invalid_geometry
    else and_then (read_unsigned 4 r1) (λ meta r2.
      if not (fits_parent parent (flags_in meta))
      then invalid invalid_geometry
      else body_of f (kind_in meta) (flags_in meta) (to_string f levels (some (flags_in meta))) r2))

unfoldable pub geometry : Floats → Bytes → Read Bytes
geometry f bytes =
    and_then (to_string f maximum_depth none (record { bytes = bytes; position = 0 }))
      (λ text r. if remaining r == 0 then done text r else invalid trailing_bytes)
