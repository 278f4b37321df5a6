-- ===== src/Variant/Geometry/Encode.antt =====
-- Geometries, their stored form and their text.
use php_duckdb.Prelude.{
  ℕ, suc, ◌+◌, ◌*◌, ◌^◌, ◌<◌, ◌≡◌, Bool, true, List, [], ◌∷◌, ◌++◌, Option, none, some, Bytes,
  codes, length, All, ltb, if◌then◌else◌,
}
use php_duckdb.Variant.Real.{Floats, real}
use php_duckdb.Variant.Geometry.{Flags, dims, flag_text, in_parentheses, all_nan}
use php_duckdb.Variant.Geometry.Reads.{bytes_of, joined, map_bytes, encode_list, show_list}

-- A vertex is the list of its coordinates.
abbrev pub Vertex : Type 0
Vertex = List ℕ

mutual
  pub data Geometry : Type 0 where
    a_point : Vertex → Geometry
    a_line : List Vertex → Geometry
    a_polygon : List (List Vertex) → Geometry
    some_points : List Vertex → Geometry
    some_lines : List (List Vertex) → Geometry
    some_polygons : List (List (List Vertex)) → Geometry
    a_collection : Geometries → Geometry

  pub data Geometries : Type 0 where
    no_more : Geometries
    more : Geometry → Geometries → Geometries

-- The stored coordinates of a vertex.
abbrev pub stored_vertex : Vertex → Bytes
stored_vertex [] = []
stored_vertex (x ∷ xs) = bytes_of 8 x ++ stored_vertex xs

abbrev pub stored_line : List Vertex → Bytes
stored_line vertices = encode_list (map_bytes stored_vertex vertices)

abbrev pub stored_rings : List (List Vertex) → Bytes
stored_rings lines = encode_list (map_bytes stored_line lines)

abbrev pub flag_bits : Bool → Bool → ℕ
flag_bits z m = (if z then 1 else 0) + (if m then 2 else 0)

-- The type of a geometry with its dimensions; and behind the byte order.
abbrev pub meta_of : ℕ → Flags → ℕ
meta_of type flags = type + 1000 * flag_bits flags.has_z flags.has_m

abbrev pub header : ℕ → Flags → Bytes
header type flags = 1 ∷ bytes_of 4 (meta_of type flags)

unfoldable mutual
  pub stored : Flags → Geometry → Bytes
  stored flags (a_point v) = header 1 flags ++ stored_vertex v
  stored flags (a_line vertices) = header 2 flags ++ stored_line vertices
  stored flags (a_polygon lines) = header 3 flags ++ stored_rings lines
  stored flags (some_points points) =
      header 4 flags ++ encode_list (map_bytes (λ v. header 1 flags ++ stored_vertex v) points)
  stored flags (some_lines lines) =
      header 5 flags ++ encode_list (map_bytes (λ vs. header 2 flags ++ stored_line vs) lines)
  stored flags (some_polygons polygons) =
      header 6 flags
      ++ encode_list (map_bytes (λ lines. header 3 flags ++ stored_rings lines) polygons)
  stored flags (a_collection gs) = header 7 flags ++ encode_list (stored_members flags gs)

  pub stored_members : Flags → Geometries → List Bytes
  stored_members flags no_more = []
  stored_members flags (more g gs) = stored flags g ∷ stored_members flags gs

-- The text of a coordinate, of a vertex and of a list of vertices.
abbrev pub or_nothing : Option Bytes → Bytes
or_nothing none = []
or_nothing (some text) = text

abbrev pub coordinate_text : Floats → ℕ → Bytes
coordinate_text f x = or_nothing (real f true x)

abbrev pub vertex_text : Floats → Vertex → Bytes
vertex_text f v = joined (codes " ") (map_bytes (coordinate_text f) v)

abbrev pub line_text : Floats → List Vertex → Bytes
line_text f vertices = show_list (map_bytes (vertex_text f) vertices)

abbrev pub rings_text : Floats → List (List Vertex) → Bytes
rings_text f lines = show_list (map_bytes (line_text f) lines)

-- A point without a coordinate that is a number is empty.
abbrev pub point_text : Floats → (Bytes → Bytes) → Vertex → Bytes
point_text f wrap v = if all_nan f v then codes "EMPTY" else wrap (vertex_text f v)

unfoldable mutual
  pub text_of : Floats → Flags → Geometry → Bytes
  text_of f flags (a_point v) = codes "POINT" ++ flag_text flags ++ point_text f in_parentheses v
  text_of f flags (a_line vertices) = codes "LINESTRING" ++ flag_text flags ++ line_text f vertices
  text_of f flags (a_polygon lines) = codes "POLYGON" ++ flag_text flags ++ rings_text f lines
  text_of f flags (some_points points) =
      codes "MULTIPOINT" ++ flag_text flags ++ show_list (map_bytes (point_text f (λ t. t)) points)
  text_of f flags (some_lines lines) =
      codes "MULTILINESTRING" ++ flag_text flags ++ show_list (map_bytes (line_text f) lines)
  text_of f flags (some_polygons polygons) =
      codes "MULTIPOLYGON" ++ flag_text flags ++ show_list (map_bytes (rings_text f) polygons)
  text_of f flags (a_collection gs) =
      codes "GEOMETRYCOLLECTION" ++ flag_text flags ++ show_list (member_texts f flags gs)

  pub member_texts : Floats → Flags → Geometries → List Bytes
  member_texts f flags no_more = []
  member_texts f flags (more g gs) = text_of f flags g ∷ member_texts f flags gs

-- What can be stored: each vertex has a coordinate of 64 bits for each dimension, which has a text; each
-- list has fewer than 2 ^ 32 parts.
abbrev pub IsCoordinate : Floats → ℕ → Type 0
IsCoordinate f x = (x < 2 ^ 64) × (real f true x ≡ some (coordinate_text f x))

abbrev pub IsVertex : Floats → Flags → Vertex → Type 0
IsVertex f flags v = (length v ≡ dims flags) × All (IsCoordinate f) v

abbrev pub IsList : {X : Type 0} → (X → Type 0) → List X → Type 0
IsList P xs = (length xs < 2 ^ 32) × All P xs

abbrev pub IsLine : Floats → Flags → List Vertex → Type 0
IsLine f flags = IsList (IsVertex f flags)

abbrev pub IsPolygon : Floats → Flags → List (List Vertex) → Type 0
IsPolygon f flags = IsList (IsLine f flags)

unfoldable mutual
  pub IsStorable : Floats → Flags → Geometry → Type 0
  IsStorable f flags (a_point v) = IsVertex f flags v
  IsStorable f flags (a_line vertices) = IsLine f flags vertices
  IsStorable f flags (a_polygon lines) = IsPolygon f flags lines
  IsStorable f flags (some_points points) = IsLine f flags points
  IsStorable f flags (some_lines lines) = IsPolygon f flags lines
  IsStorable f flags (some_polygons polygons) = IsList (IsPolygon f flags) polygons
  IsStorable f flags (a_collection gs) =
      (length (stored_members flags gs) < 2 ^ 32) × AllStorable f flags gs

  pub AllStorable : Floats → Flags → Geometries → Type 0
  AllStorable f flags no_more = Unit
  AllStorable f flags (more g gs) = IsStorable f flags g × AllStorable f flags gs

-- How deep collections are nested.
abbrev pub greater : ℕ → ℕ → ℕ
greater a b = if ltb a b then b else a

unfoldable mutual
  pub levels : Geometry → ℕ
  levels (a_point v) = 1
  levels (a_line vertices) = 1
  levels (a_polygon lines) = 1
  levels (some_points points) = 1
  levels (some_lines lines) = 1
  levels (some_polygons polygons) = 1
  levels (a_collection gs) = suc (member_levels gs)

  pub member_levels : Geometries → ℕ
  member_levels no_more = 0
  member_levels (more g gs) = greater (levels g) (member_levels gs)
