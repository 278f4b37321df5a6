-- ===== src/Variant/Geometry/Texts.antt =====
-- The text of a stored geometry.
use php_duckdb.Prelude.{
  ℕ, suc, ◌≡◌, refl, ap, Bool, true, false, List, [], ◌∷◌, ◌++◌, append-nil, Option, none, some,
  arith, Bytes, codes, length, All, if◌then◌else◌,
}
use mathlib.Core.Path.{subst}
use php_duckdb.Variant.{Reader, Read, done, read_unsigned}
use php_duckdb.Variant.Real.{Floats, real}
use php_duckdb.Variant.Geometry.{
  Flags, dims, rendered, vertex, counted, line, rings, coordinates, all_nan, written, point_body,
}
use php_duckdb.Variant.Geometry.Reads.{
  Reads, done-Reads, and_then-Reads, map-Reads, read_unsigned-Reads, bytes_of, texts, map_bytes,
  encode_list, show_list, map_bytes-AllRead, counted-Reads,
}
use php_duckdb.Variant.Geometry.Encode.{
  Vertex, stored_vertex, stored_line, stored_rings, or_nothing, coordinate_text, vertex_text,
  line_text, rings_text, point_text, IsCoordinate, IsVertex, IsList, IsLine, IsPolygon,
}

rendered-Reads : (o : Option Bytes) → o ≡ some (or_nothing o) → Reads (rendered o) [] (or_nothing o)
rendered-Reads none h = cc
rendered-Reads (some text) h = done-Reads text

vertex-Reads :
    (f : Floats) (v : Vertex) (first : Bool)
    → All (IsCoordinate f) v
    → Reads
        (vertex f (length v) first)
        (stored_vertex v)
        (texts first (codes " ") (map_bytes (coordinate_text f) v))
unfolding vertex
vertex-Reads f [] true h = done-Reads []
vertex-Reads f [] false h = done-Reads []
vertex-Reads f (x ∷ xs) true ((fits, e), hs) =
    and_then-Reads (read_unsigned 8) _ (bytes_of 8 x) (stored_vertex xs) x _
      (read_unsigned-Reads 8 x fits)
      (and_then-Reads (rendered (real f true x)) _ [] (stored_vertex xs) (coordinate_text f x) _
        (rendered-Reads (real f true x) e)
        (map-Reads (vertex f (length xs) false) (λ more. coordinate_text f x ++ more)
          (stored_vertex xs) _ (vertex-Reads f xs false hs)))
vertex-Reads f (x ∷ xs) false ((fits, e), hs) =
    and_then-Reads (read_unsigned 8) _ (bytes_of 8 x) (stored_vertex xs) x _
      (read_unsigned-Reads 8 x fits)
      (and_then-Reads (rendered (real f true x)) _ [] (stored_vertex xs) (coordinate_text f x) _
        (rendered-Reads (real f true x) e)
        (map-Reads (vertex f (length xs) false) (λ more. (codes " " ++ coordinate_text f x) ++ more)
          (stored_vertex xs) _ (vertex-Reads f xs false hs)))

whole_vertex-Reads :
    (f : Floats) (flags : Flags) (v : Vertex)
    → IsVertex f flags v
    → Reads (vertex f (dims flags) true) (stored_vertex v) (vertex_text f v)
whole_vertex-Reads f flags v (n, h) =
    subst (λ (c : ℕ). Reads (vertex f c true) (stored_vertex v) (vertex_text f v)) n
      (vertex-Reads f v true h)

coordinates-Reads :
    (f : Floats) (v : Vertex)
    → All (IsCoordinate f) v
    → Reads (coordinates (length v)) (stored_vertex v) v
unfolding coordinates
coordinates-Reads f [] h = done-Reads []
coordinates-Reads f (x ∷ xs) ((fits, e), hs) =
    and_then-Reads (read_unsigned 8) _ (bytes_of 8 x) (stored_vertex xs) x _
      (read_unsigned-Reads 8 x fits)
      (map-Reads (coordinates (length xs)) (λ more. x ∷ more) (stored_vertex xs) xs
        (coordinates-Reads f xs hs))

written-Reads :
    (f : Floats) (v : Vertex) (first : Bool)
    → All (IsCoordinate f) v
    → Reads (written f v first) [] (texts first (codes " ") (map_bytes (coordinate_text f) v))
unfolding written
written-Reads f [] true h = done-Reads []
written-Reads f [] false h = done-Reads []
written-Reads f (x ∷ xs) true ((fits, e), hs) =
    and_then-Reads (rendered (real f true x)) _ [] [] (coordinate_text f x) _
      (rendered-Reads (real f true x) e)
      (map-Reads (written f xs false) (λ more. coordinate_text f x ++ more) [] _
        (written-Reads f xs false hs))
written-Reads f (x ∷ xs) false ((fits, e), hs) =
    and_then-Reads (rendered (real f true x)) _ [] [] (coordinate_text f x) _
      (rendered-Reads (real f true x) e)
      (map-Reads (written f xs false) (λ more. (codes " " ++ coordinate_text f x) ++ more) [] _
        (written-Reads f xs false hs))

if-Reads :
    (b : Bool) (p q : Reader → Read Bytes) (bytes s t : Bytes)
    → Reads p bytes s
    → Reads q bytes t
    → Reads (λ r. if b then p r else q r) bytes (if b then s else t)
if-Reads true p q bytes s t hp hq = hp
if-Reads false p q bytes s t hp hq = hq

pub point_body-Reads :
    (f : Floats) (flags : Flags) (wrap : Bytes → Bytes) (v : Vertex)
    → IsVertex f flags v
    → Reads (point_body f flags wrap) (stored_vertex v) (point_text f wrap v)
point_body-Reads f flags wrap v (n, h) =
    let read =
      subst (λ (c : ℕ). Reads (coordinates c) (stored_vertex v) v) n (coordinates-Reads f v h) in
    let shown =
      if-Reads (all_nan f v) (done (codes "EMPTY")) _ [] (codes "EMPTY") (wrap (vertex_text f v))
        (done-Reads (codes "EMPTY"))
        (map-Reads (written f v true) wrap [] _ (written-Reads f v true h)) in
    subst (λ (bs : Bytes). Reads (point_body f flags wrap) bs (point_text f wrap v))
      (append-nil (stored_vertex v))
      (and_then-Reads (coordinates (dims flags)) _ (stored_vertex v) [] v _ read shown)

-- Lists of parts of which each can be stored.
pub list-Reads :
    {X : Type 0} (p : Reader → Read Bytes) (encode show : X → Bytes) (P : X → Type 0) (xs : List X)
    → ((x : X) → P x → Reads p (encode x) (show x))
    → All P xs
    → All (λ x. Reads p (encode x) (show x)) xs
list-Reads p encode show P [] h _ = tt
list-Reads p encode show P (x ∷ xs) h (k, ks) = (h x k, list-Reads p encode show P xs h ks)

length-map_bytes : {X : Type 0} (f : X → Bytes) (xs : List X) → length (map_bytes f xs) ≡ length xs
length-map_bytes f [] = refl
length-map_bytes f (x ∷ xs) = ap suc (length-map_bytes f xs)

pub counted_list-Reads :
    {X : Type 0} (p : Reader → Read Bytes) (encode show : X → Bytes) (P : X → Type 0) (xs : List X)
    → ((x : X) → P x → Reads p (encode x) (show x))
    → IsList P xs
    → Reads (counted p) (encode_list (map_bytes encode xs)) (show_list (map_bytes show xs))
counted_list-Reads p encode show P xs h (n, all) =
    counted-Reads p (map_bytes encode xs) (map_bytes show xs)
      (omega (arith, length-map_bytes encode xs))
      (map_bytes-AllRead p encode show xs (list-Reads p encode show P xs h all))

pub line-Reads :
    (f : Floats) (flags : Flags) (vertices : List Vertex)
    → IsLine f flags vertices
    → Reads (line f flags) (stored_line vertices) (line_text f vertices)
line-Reads f flags vertices h =
    counted_list-Reads (vertex f (dims flags) true) stored_vertex (vertex_text f) (IsVertex f flags)
      vertices (whole_vertex-Reads f flags) h

pub rings-Reads :
    (f : Floats) (flags : Flags) (lines : List (List Vertex))
    → IsPolygon f flags lines
    → Reads (rings f flags) (stored_rings lines) (rings_text f lines)
rings-Reads f flags lines h =
    counted_list-Reads (line f flags) stored_line (line_text f) (IsLine f flags) lines
      (line-Reads f flags) h
