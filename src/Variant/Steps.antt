-- ===== src/Variant/Steps.antt =====
-- One step of the rendering of a stored value: the cells, the parts of the payload, a child.
use php_duckdb.Prelude.{
  ℕ, zero, suc, ◌+◌, ◌-◌, ◌*◌, ◌%◌, ◌^◌, ◌≤◌, ◌<◌, ◌≡◌, inl, inr, refl, ap, ◌∙◌, Bool, true, false,
  ◌||◌, List, [], ◌∷◌, ◌++◌, arith, Bytes, codes, length, drop, get_elem?, ltb, ◌==◌, if◌then◌else◌,
  Bool-cases,
}
use native.Mathlib.Nat.{pow-suc}
use php_duckdb.Prelude.Bits.{pow-add}
use php_duckdb.Prelude.Int.{ℤ, pos, negsuc}
use php_duckdb.Variant.{Reader, Read, done, seek, take_bytes, read_unsigned, varint}
use php_duckdb.Variant.Geometry.{separated}
use php_duckdb.Variant.Geometry.Reads.{
  Reads, moved, drop_more, take_bytes-Reads, read_unsigned-Reads, bytes_of, texts, separated-texts,
}
use php_duckdb.Variant.Varint.{leb128, varint-leb128}
use php_duckdb.Variant.Quote.{quote}
use php_duckdb.Variant.Decode.{
  rendered, a_decimal, decimal_bytes, with_leading_zero, sign_extended, decimal_text, Result, ok,
  from, Column, Decoder, index, cell, Engine, signed_text,
}
use php_duckdb.Variant.Render.{
  tags, is_active, Fields, put, fields_text, elements, members, children_at, by_tag, render,
  number_at, sized_bytes,
}
use php_duckdb.Variant.Stored.{
  integer_text, pairs, IsCell, FitsSigned, complement, ChildrenAt, no_children, some_children,
}

cell-IsCell :
    {A : Type 0} (column : Column A) (row : ℕ) (a : A)
    → IsCell column row a
    → cell column row ≡ ok a
cell-IsCell column row a (v, (cells, c, e)) = rw (v, c, e) refl

index_ok :
    (extent offset relative : ℕ)
    → relative < extent
    → index (record { offset = offset; extent = extent }) relative ≡ ok (offset + relative)
index_ok extent offset relative h = ground arith

-- A part that is read from a payload, and what is done with it.
from-Reads :
    {A B : Type 0} (f : Reader → Read A) (g : A → Reader → Result B) (xs : Bytes) (a : A)
    → Reads f xs a
    → (r : Reader) (rest : Bytes) → drop r.position r.bytes ≡ xs ++ rest
    → (from (f r) g ≡ g a (moved (length xs) r)) × (drop (r.position + length xs) r.bytes ≡ rest)
from-Reads f g xs a h r rest e =
    (ap (λ (d : Read _). from d g) (h r rest e), drop_more r.position r.bytes xs rest e)

varint-Reads : (n : ℕ) → n < 2 ^ 32 → Reads (λ r. varint r) (leb128 5 n) n
varint-Reads n fits r rest h = varint-leb128 n r rest fits h

bytes_pow : (w : ℕ) → 256 ^ w ≡ 2 ^ (8 * w)
bytes_pow zero = refl
bytes_pow (suc w) =
    let e : 8 * suc w ≡ 8 * w + 8 = omega arith in
    rw (e, pow-suc 256 w, pow-add 2 (8 * w) 8, bytes_pow w) refl

half_pow : (w : ℕ) → 0 < w → 2 ^ (8 * w) ≡ 2 * 2 ^ (8 * w - 1)
half_pow w h =
    let e : 8 * w ≡ suc (8 * w - 1) = omega arith in
    ap (λ (k : ℕ). 2 ^ k) e ∙ (pow-suc 2 (8 * w - 1) ∙ omega arith)

pub signed_text-complement :
    (width : ℕ) (z : ℤ)
    → 0 < width
    → FitsSigned width z
    → signed_text width (complement width z) ≡ integer_text z
signed_text-complement width (pos n) w h = ground arith
signed_text-complement width (negsuc n) w h =
    let e : 2 ^ (8 * width) ≡ 2 * 2 ^ (8 * width - 1) = half_pow width w in
    let back : 2 ^ (8 * width) - (2 ^ (8 * width) - suc n) ≡ suc n = omega arith in
    let large : ltb (2 ^ (8 * width) - suc n) (2 ^ (8 * width - 1)) ≡ false = ground arith in
    rw (large, back) refl

pub fields_text-pairs :
    (first : Bool) (fields : Fields)
    → fields_text first fields ≡ texts first (codes ",") (pairs fields)
fields_text-pairs true [] = refl
fields_text-pairs false [] = refl
fields_text-pairs first ((k, t) ∷ fields) =
    rw (fields_text-pairs false fields)
      (separated-texts first (codes ",") (quote k ++ (b':' ∷ t)) (pairs fields))

pub children_at-ChildrenAt :
    {d : Decoder} {bytes : Bytes} {count first : ℕ}
    → ChildrenAt d bytes count first
    → (r : Reader) → drop r.position r.bytes ≡ bytes
    → (f : ℕ → ℕ → Result Bytes) → children_at d r f ≡ f count first
unfolding children_at
children_at-ChildrenAt (no_children rest) r e f =
    (from-Reads (λ r. varint r) _ (leb128 5 0) 0 (varint-Reads 0 (omega arith)) r rest e).0
    ∙ ground arith
children_at-ChildrenAt {d = d} (some_children {count = count} {first = first} rest small low fits) r
      e f =
    let some_count : (suc count == 0) ≡ false = ground arith in
    let above : ltb d.children.extent first ≡ false = ground arith in
    let room : ltb (d.children.extent - first) (suc count) ≡ false = ground arith in
    let counted =
      from-Reads (λ r. varint r) _ (leb128 5 (suc count)) (suc count)
        (varint-Reads (suc count) small) r (leb128 5 first ++ rest) e in
    let second : varint (moved (length (leb128 5 (suc count))) r)
        ≡ done first (moved (length (leb128 5 first)) (moved (length (leb128 5 (suc count))) r)) =
      varint-Reads first low (moved (length (leb128 5 (suc count))) r) rest counted.1 in
    counted.0 ∙ rw (some_count, second, above, room) refl

pub sized_bytes-read :
    (s rest : Bytes) (r : Reader) (f : Bytes → Result Bytes)
    → length s < 2 ^ 32
    → drop r.position r.bytes ≡ leb128 5 (length s) ++ (s ++ rest)
    → sized_bytes r f ≡ f s
sized_bytes-read s rest r f small h =
    let sized =
      from-Reads (λ r. varint r) (λ n r1. from (take_bytes n r1) (λ bytes r2. f bytes))
        (leb128 5 (length s)) (length s) (varint-Reads (length s) small) r (s ++ rest) h in
    sized.0
    ∙ (from-Reads (take_bytes (length s)) (λ bytes r2. f bytes) s s (take_bytes-Reads s)
        (moved (length (leb128 5 (length s))) r) rest sized.1).0

pub number_at-read :
    (width n : ℕ) (rest : Bytes) (r : Reader) (f : ℕ → Result Bytes)
    → n < 256 ^ width
    → drop r.position r.bytes ≡ bytes_of width n ++ rest
    → number_at width r f ≡ f n
number_at-read width n rest r f fits h =
    (from-Reads (read_unsigned width) (λ m r1. f m) (bytes_of width n) n
      (read_unsigned-Reads width n fits) r rest h).0

pub complement_fits :
    (width : ℕ) (z : ℤ) → 0 < width → FitsSigned width z → complement width z < 256 ^ width
complement_fits width (pos n) w h =
    let e : 2 ^ (8 * width) ≡ 2 * 2 ^ (8 * width - 1) = half_pow width w in
    rw (bytes_pow width) (omega arith)
complement_fits width (negsuc n) w h =
    let e : 2 ^ (8 * width) ≡ 2 * 2 ^ (8 * width - 1) = half_pow width w in
    rw (bytes_pow width) (omega arith)

sign_extended-complement :
    (width : ℕ) (z : ℤ)
    → 0 < width
    → 2 ^ (8 * width) ≤ 2 ^ 128
    → FitsSigned width z
    → sign_extended width (complement width z) ≡ complement 16 z
sign_extended-complement width (pos n) w small h = ground arith
sign_extended-complement width (negsuc n) w small h =
    let e : 2 ^ (8 * width) ≡ 2 * 2 ^ (8 * width - 1) = half_pow width w in
    let large : ltb (2 ^ (8 * width) - suc n) (2 ^ (8 * width - 1)) ≡ false = ground arith in
    rw large (omega arith)

decimal_bytes-bounds :
    (width : ℕ) → (0 < decimal_bytes width) × (2 ^ (8 * decimal_bytes width) ≤ 2 ^ 128)
decimal_bytes-bounds width = elim (Bool-cases (ltb 18 width)) [
  | inl t ↦ rw t (omega arith, omega arith)
  | inr f ↦ elim (Bool-cases (ltb 9 width)) [
    | inl t ↦ rw (f, t) (omega arith, omega arith)
    | inr g ↦ elim (Bool-cases (ltb 4 width)) [
      | inl t ↦ rw (f, g, t) (omega arith, omega arith)
      | inr h ↦ rw (f, g, h) (omega arith, omega arith)
    ]
  ]
]

pub decimal_text-read :
    (e : Engine) (width scale : ℕ) (z : ℤ) (t rest : Bytes) (r : Reader)
    → 0 < width
    → width ≤ 38
    → scale ≤ width
    → FitsSigned (decimal_bytes width) z
    → e.text_of (a_decimal width scale (complement 16 z)) ≡ rendered t
    → drop r.position r.bytes
      ≡ leb128 5 width
        ++ (leb128 5 scale
            ++ (bytes_of (decimal_bytes width) (complement (decimal_bytes width) z) ++ rest))
    → decimal_text e r ≡ ok (if width == scale then with_leading_zero t else t)
unfolding decimal_text
decimal_text-read e width scale z t rest r some_width small low fits eq h =
    let size = decimal_bytes width in
    let bits = complement size z in
    let bounds = decimal_bytes-bounds width in
    let sign = sign_extended-complement size z bounds.0 bounds.1 fits in
    let allowed : (width == 0 || (ltb 38 width || ltb width scale)) ≡ false = ground arith in
    let short : width < 2 ^ 32 = omega arith in
    let short_scale : scale < 2 ^ 32 = omega arith in
    let first =
      from-Reads (λ r. varint r) _ (leb128 5 width) width (varint-Reads width short) r
        (leb128 5 scale ++ (bytes_of size bits ++ rest)) h in
    let second =
      from-Reads (λ r. varint r) _ (leb128 5 scale) scale (varint-Reads scale short_scale)
        (moved (length (leb128 5 width)) r) (bytes_of size bits ++ rest) first.1 in
    let third =
      from-Reads (read_unsigned size) _ (bytes_of size bits) bits
        (read_unsigned-Reads size bits (complement_fits size z bounds.0 fits))
        (moved (length (leb128 5 scale)) (moved (length (leb128 5 width)) r)) rest second.1 in
    first.0 ∙ (second.0 ∙ rw allowed (third.0 ∙ rw (sign, eq) refl))

seek_inside :
    (offset : ℕ) (r : Reader)
    → offset ≤ length r.bytes
    → seek offset r ≡ done offset (record r { position = offset })
unfolding seek
seek_inside offset r h = let e : ltb (length r.bytes) offset ≡ false = ground arith in rw e refl

pub render-step :
    (e : Engine) (d : Decoder) (levels i tag offset : ℕ) (active : List ℕ)
    → is_active i active ≡ false
    → i < d.values.extent
    → IsCell d.vector.type_id (d.values.offset + i) tag
    → IsCell d.vector.byte_offset (d.values.offset + i) offset
    → offset ≤ length d.blob.bytes
    → render e d (suc levels) active i
      ≡ by_tag e d
          (render e d levels (i ∷ active))
          (record d.blob { position = offset })
          (get_elem? tags tag)
unfolding render
render-step e d levels i tag offset active fresh small c1 c2 inside =
    rw
      (
        fresh,
        index_ok d.values.extent d.values.offset i small,
        cell-IsCell d.vector.type_id _ tag c1,
        cell-IsCell d.vector.byte_offset _ offset c2,
        seek_inside offset d.blob inside,
      )
      refl

pub elements-step :
    (d : Decoder) (inner : ℕ → Result Bytes) (first count i : ℕ) (start : Bool) (result t : Bytes)
    → first < d.children.extent
    → first < 2 ^ 32
    → IsCell d.vector.values_index (d.children.offset + first) i
    → inner i ≡ ok t
    → elements d inner (suc count) first start result
      ≡ elements d inner count (suc first) false (result ++ separated start (codes ",") t)
unfolding elements
elements-step d inner first count i start result t small low c h =
    let e : first % 2 ^ 32 ≡ first = omega arith in
    rw
      (
        e,
        index_ok d.children.extent d.children.offset first small,
        cell-IsCell d.vector.values_index _ i c,
        h,
      )
      refl

pub members-step :
    (d : Decoder) (inner : ℕ → Result Bytes) (first count i j : ℕ) (k t : Bytes) (fields : Fields)
    → first < d.children.extent
    → first < 2 ^ 32
    → IsCell d.vector.values_index (d.children.offset + first) i
    → IsCell d.vector.keys_index (d.children.offset + first) j
    → j < d.keys.extent
    → IsCell d.vector.key_names (d.keys.offset + j) k
    → inner i ≡ ok t
    → members d inner (suc count) first fields ≡ members d inner count (suc first) (put k t fields)
unfolding members
members-step d inner first count i j k t fields small low c cj l ck h =
    let e : first % 2 ^ 32 ≡ first = omega arith in
    rw
      (
        e,
        index_ok d.children.extent d.children.offset first small,
        cell-IsCell d.vector.values_index _ i c,
        h,
        cell-IsCell d.vector.keys_index _ j cj,
        index_ok d.keys.extent d.keys.offset j l,
        cell-IsCell d.vector.key_names _ k ck,
      )
      refl

pub no_texts : (start : Bool) → texts start (codes ",") [] ≡ []
no_texts true = refl
no_texts false = refl
