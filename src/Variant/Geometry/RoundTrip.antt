-- ===== src/Variant/Geometry/RoundTrip.antt =====
-- A stored geometry is decoded as its text.
use php_duckdb.Prelude.{
  ℕ, zero, suc, ◌+◌, ◌-◌, ◌/◌, ◌%◌, ◌≤◌, ◌<◌, ◌≡◌, refl, sym, ap, ◌∙◌, Bool, true, false, not, [],
  ◌∷◌, ◌++◌, append-nil, Option, none, some, arith, Bytes, codes, length, ◌==◌, if◌then◌else◌,
}
use mathlib.Core.Path.{subst}
use Prim.Native.Nat.{bit_and}
use php_duckdb.Prelude.Bits.{and-low_mask}
use php_duckdb.Variant.{
  Reader, Read, done, invalid, invalid_geometry, trailing_bytes, and_then, remaining, read_unsigned,
}
use php_duckdb.Variant.Real.{Floats}
use php_duckdb.Variant.Geometry.{
  Kind, kind_of, Flags, low_half, kind_in, flags_in, same_bool, same_flags, same_kind, flag_text,
  line, rings, point_body, part, named, in_parentheses, body_of, fits_parent, to_string,
  maximum_depth, geometry,
}
use php_duckdb.Variant.Geometry.Reads.{
  Reads, and_then-Reads, map-Reads, read_unsigned-Reads, bytes_of, map_bytes, encode_list,
  show_list, AllRead, counted-Reads,
}
use php_duckdb.Variant.Geometry.Encode.{
  Geometry, a_point, a_line, a_polygon, some_points, some_lines, some_polygons, a_collection,
  Geometries, no_more, more, stored, stored_members, text_of, member_texts, IsStorable, AllStorable,
  levels, member_levels, greater, stored_vertex, stored_line, stored_rings, flag_bits, meta_of,
  header, line_text, rings_text, point_text, IsVertex, IsLine, IsPolygon,
}
use php_duckdb.Variant.Geometry.Texts.{
  point_body-Reads, counted_list-Reads, line-Reads, rings-Reads,
}

flag_bits-lt : (flags : Flags) → flag_bits flags.has_z flags.has_m < 4
flag_bits-lt flags = ground arith

low_half-meta_of :
    (type : ℕ) (flags : Flags) → type < 8 → low_half (meta_of type flags) ≡ meta_of type flags
low_half-meta_of type flags h =
    let b = flag_bits-lt flags in and-low_mask 16 (meta_of type flags) ∙ omega arith

kind_in-meta_of :
    (type : ℕ) (flags : Flags) → type < 8 → kind_in (meta_of type flags) ≡ kind_of type
kind_in-meta_of type flags h =
    let b = flag_bits-lt flags in
    let low = low_half-meta_of type flags h in
    ap kind_of {x = low_half (meta_of type flags) % 1000} {y = type} (omega arith)

abbrev flags_of : ℕ → Flags
flags_of b = record { has_z = not (bit_and b 1 == 0); has_m = not (bit_and b 2 == 0) }

flags_of-flag_bits : (z m : Bool) → flags_of (flag_bits z m) ≡ record { has_z = z; has_m = m }
flags_of-flag_bits true true = refl
flags_of-flag_bits true false = refl
flags_of-flag_bits false true = refl
flags_of-flag_bits false false = refl

flags_in-meta_of : (type : ℕ) (flags : Flags) → type < 8 → flags_in (meta_of type flags) ≡ flags
flags_in-meta_of type flags h =
    let b = flag_bits-lt flags in
    let low = low_half-meta_of type flags h in
    ap flags_of {x = low_half (meta_of type flags) / 1000} {y = flag_bits flags.has_z flags.has_m}
      (omega arith)
    ∙ flags_of-flag_bits flags.has_z flags.has_m

same_bool_refl : (b : Bool) → same_bool b b ≡ true
same_bool_refl true = refl
same_bool_refl false = refl

same_flags_refl : (flags : Flags) → same_flags flags flags ≡ true
same_flags_refl flags = rw (same_bool_refl flags.has_z, same_bool_refl flags.has_m)

-- A test that lets a reader pass.
guard-Reads :
    (b : Bool) (p q : Reader → Read Bytes) (bytes t : Bytes)
    → b ≡ true
    → Reads q bytes t
    → Reads (λ r. if not b then p r else q r) bytes t
guard-Reads true p q bytes t e h = h
guard-Reads false p q bytes t e h = cc

-- The byte order and the type in front of something.
header-Reads :
    (type : ℕ) (flags : Flags) (g : ℕ → Reader → Read Bytes) (bytes t : Bytes)
    → type < 8
    → Reads (g (meta_of type flags)) bytes t
    → Reads
        (λ r. and_then (read_unsigned 1 r) (λ order r1.
          if not (order == 1) then invalid invalid_geometry else and_then (read_unsigned 4 r1) g))
        (header type flags ++ bytes)
        t
header-Reads type flags g bytes t h k =
    let b = flag_bits-lt flags in
    and_then-Reads (read_unsigned 1) _ (1 ∷ []) (bytes_of 4 (meta_of type flags) ++ bytes) 1 t
      (read_unsigned-Reads 1 1 (omega arith))
      (and_then-Reads (read_unsigned 4) g (bytes_of 4 (meta_of type flags)) bytes
        (meta_of type flags) t (read_unsigned-Reads 4 (meta_of type flags) (omega arith)) k)

part-Reads :
    (type : ℕ) (flags : Flags) (body : Reader → Read Bytes) (bytes t : Bytes)
    → type < 8
    → same_kind (kind_of type) (kind_of type) ≡ true
    → Reads body bytes t
    → Reads (part (kind_of type) flags body) (header type flags ++ bytes) t
part-Reads type flags body bytes t h same k = header-Reads type flags _ bytes t h (
    guard-Reads _ _ _ bytes t (ap (same_kind (kind_of type)) (kind_in-meta_of type flags h) ∙ same)
      (guard-Reads _ _ _ bytes t
        (ap (same_flags flags) (flags_in-meta_of type flags h) ∙ same_flags_refl flags) k))

whole-Reads :
    (f : Floats) (n type : ℕ) (parent : Option Flags) (flags : Flags) (bytes t : Bytes)
    → type < 8
    → fits_parent parent flags ≡ true
    → Reads (body_of f (kind_of type) flags (to_string f n (some flags))) bytes t
    → Reads (to_string f (suc n) parent) (header type flags ++ bytes) t
unfolding to_string
whole-Reads f n type parent flags bytes t h fits k =
    let kinds = kind_in-meta_of type flags h in
    let same = flags_in-meta_of type flags h in
    header-Reads type flags _ bytes t h (
      guard-Reads _ _ _ bytes t (ap (fits_parent parent) same ∙ fits) (
        subst
          (λ (x : Kind).
            Reads
              (body_of f x (flags_in (meta_of type flags))
                (to_string f n (some (flags_in (meta_of type flags)))))
              bytes t)
          (sym kinds)
          (subst
            (λ (x : Flags). Reads (body_of f (kind_of type) x (to_string f n (some x))) bytes t)
            (sym same) k)))

named-Reads :
    (name : Bytes) (flags : Flags) (body : Reader → Read Bytes) (bytes t : Bytes)
    → Reads body bytes t
    → Reads (named name flags body) bytes (name ++ flag_text flags ++ t)
named-Reads name flags body bytes t h =
    map-Reads body (λ text. name ++ flag_text flags ++ text) bytes t h

greater-le : (a b : ℕ) → (a ≤ greater a b) × (b ≤ greater a b)
greater-le a b = ground arith

levels_pos : (g : Geometry) → 0 < levels g
unfolding levels
levels_pos (a_point v) = omega arith
levels_pos (a_line vertices) = omega arith
levels_pos (a_polygon lines) = omega arith
levels_pos (some_points points) = omega arith
levels_pos (some_lines lines) = omega arith
levels_pos (some_polygons polygons) = omega arith
levels_pos (a_collection gs) = omega arith

mutual
  unfolding stored text_of IsStorable levels

  to_string-Reads :
      (f : Floats) (flags : Flags) (g : Geometry) (n : ℕ) (parent : Option Flags)
      → levels g ≤ suc n
      → fits_parent parent flags ≡ true
      → IsStorable f flags g
      → Reads (to_string f (suc n) parent) (stored flags g) (text_of f flags g)
  to_string-Reads f flags (a_point v) n parent l e h =
      whole-Reads f n 1 parent flags (stored_vertex v) _ (omega arith) e (
        named-Reads (codes "POINT") flags _ (stored_vertex v) (point_text f in_parentheses v)
          (point_body-Reads f flags in_parentheses v h))
  to_string-Reads f flags (a_line vertices) n parent l e h =
      whole-Reads f n 2 parent flags (stored_line vertices) _ (omega arith) e (
        named-Reads (codes "LINESTRING") flags _ (stored_line vertices) (line_text f vertices)
          (line-Reads f flags vertices h))
  to_string-Reads f flags (a_polygon lines) n parent l e h =
      whole-Reads f n 3 parent flags (stored_rings lines) _ (omega arith) e (
        named-Reads (codes "POLYGON") flags _ (stored_rings lines) (rings_text f lines)
          (rings-Reads f flags lines h))
  to_string-Reads f flags (some_points points) n parent l e h =
      whole-Reads f n 4 parent flags
        (encode_list (map_bytes (λ v. header 1 flags ++ stored_vertex v) points)) _ (omega arith) e
        (named-Reads (codes "MULTIPOINT") flags _
          (encode_list (map_bytes (λ v. header 1 flags ++ stored_vertex v) points))
          (show_list (map_bytes (point_text f (λ t. t)) points))
          (counted_list-Reads _ (λ v. header 1 flags ++ stored_vertex v) (point_text f (λ t. t))
            (IsVertex f flags) points
            (λ v k.
              part-Reads 1 flags (point_body f flags (λ t. t)) (stored_vertex v)
                (point_text f (λ t. t) v) (omega arith) refl
                (point_body-Reads f flags (λ t. t) v k))
            h))
  to_string-Reads f flags (some_lines lines) n parent l e h =
      whole-Reads f n 5 parent flags
        (encode_list (map_bytes (λ vs. header 2 flags ++ stored_line vs) lines)) _ (omega arith) e
        (named-Reads (codes "MULTILINESTRING") flags _
          (encode_list (map_bytes (λ vs. header 2 flags ++ stored_line vs) lines))
          (show_list (map_bytes (line_text f) lines))
          (counted_list-Reads _ (λ vs. header 2 flags ++ stored_line vs) (line_text f)
            (IsLine f flags) lines
            (λ vs k.
              part-Reads 2 flags (line f flags) (stored_line vs) (line_text f vs) (omega arith) refl
                (line-Reads f flags vs k))
            h))
  to_string-Reads f flags (some_polygons polygons) n parent l e h =
      whole-Reads f n 6 parent flags
        (encode_list (map_bytes (λ ls. header 3 flags ++ stored_rings ls) polygons)) _ (omega arith)
        e
        (named-Reads (codes "MULTIPOLYGON") flags _
          (encode_list (map_bytes (λ ls. header 3 flags ++ stored_rings ls) polygons))
          (show_list (map_bytes (rings_text f) polygons))
          (counted_list-Reads _ (λ ls. header 3 flags ++ stored_rings ls) (rings_text f)
            (IsPolygon f flags) polygons
            (λ ls k.
              part-Reads 3 flags (rings f flags) (stored_rings ls) (rings_text f ls) (omega arith)
                refl (rings-Reads f flags ls k))
            h))
  to_string-Reads f flags (a_collection gs) n parent l e (count, h) =
      whole-Reads f n 7 parent flags (encode_list (stored_members flags gs)) _ (omega arith) e (
        named-Reads (codes "GEOMETRYCOLLECTION") flags _ (encode_list (stored_members flags gs))
          (show_list (member_texts f flags gs))
          (counted-Reads (to_string f n (some flags)) (stored_members flags gs)
            (member_texts f flags gs) count (members-AllRead f flags gs n (omega arith) h)))

  members-AllRead :
      (f : Floats) (flags : Flags) (gs : Geometries) (n : ℕ)
      → member_levels gs ≤ n
      → AllStorable f flags gs
      → AllRead (to_string f n (some flags)) (stored_members flags gs) (member_texts f flags gs)
  members-AllRead f flags no_more n l h = tt
  members-AllRead f flags (more g gs) zero l h =
      let bounds = greater-le (levels g) (member_levels gs) in
      absurd (omega (arith, bounds, levels_pos g))
  members-AllRead f flags (more g gs) (suc n) l (h, hs) =
      let bounds = greater-le (levels g) (member_levels gs) in
      (
        to_string-Reads f flags g n (some flags) (omega (arith, bounds)) (same_flags_refl flags) h,
        members-AllRead f flags gs (suc n) (omega (arith, bounds)) hs,
      )

-- The stored form of a geometry, of any type and dimensions, with at most 64 levels of collections, is
-- decoded as its text and read to its last byte, provided that each vertex has a coordinate of 64 bits
-- for each dimension, that the coordinates have texts, and that no list has 2 ^ 32 parts.
pub geometry-stored :
    (f : Floats) (flags : Flags) (g : Geometry)
    → levels g ≤ maximum_depth
    → IsStorable f flags g
    → geometry f (stored flags g)
      ≡ done
          (text_of f flags g)
          (record { bytes = stored flags g; position = length (stored flags g) })
unfolding geometry
geometry-stored f flags g l h =
    let start : Reader = record { bytes = stored flags g; position = 0 } in
    let read =
      to_string-Reads f flags g 63 none l refl h start [] (sym (append-nil (stored flags g))) in
    let n : ℕ = length (stored flags g) in
    let at_end : 0 + n ≡ n = omega arith in
    let nothing_left : (n - (0 + n) == 0) ≡ true = ground arith in
    ap
      (λ (d : Read Bytes).
        and_then d (λ text r. if remaining r == 0 then done text r else invalid trailing_bytes))
      read
    ∙ rw nothing_left
        (ap (λ (p : ℕ). done (text_of f flags g) (record start { position = p })) at_end)
