-- ===== src/Cells/Nested/Success.antt =====
-- Nested cells decode whenever their scalars do and their type keeps within the limit.
use php_duckdb.Prelude.{
  ℕ, zero, suc, ◌+◌, ◌*◌, ◌≤◌, ◌<◌, ◌≡◌, refl, ap, ◌∙◌, Bool, true, false, arith,
}
use php_duckdb.Cells.Value.{Key, next, name, Value, null, array, Entries, nil, entry}
use php_duckdb.Cells.Scalar.{Calendar, decode_cell, Decoded, value}
use php_duckdb.Cells.Nested.{
  has_scalar_keys, Column, scalars, lists, arrays, structs, maps, unions, Members, no_member,
  member, Filled, filled, as_array, push, nullable, within, decode_rows, map_key, pair, push_pair,
  decode_pairs, member_name, decode_column, decode_members, decode_nth, max_nesting_depth,
  decode_value,
}
use php_duckdb.Cells.Nested.Limit.{levels, member_levels, greater-le, within-below}

-- Every scalar cell below the column decodes.
unfoldable mutual
  pub IsDecodable : Calendar → Column → Type 0
  IsDecodable c (scalars valid cells) =
      (row : ℕ) → (v : Value) × (decode_cell c (cells row) ≡ value v)
  IsDecodable c (lists valid entries child) = IsDecodable c child
  IsDecodable c (arrays valid size child) = IsDecodable c child
  IsDecodable c (structs valid members) = AllDecodable c members
  IsDecodable c (maps valid entries key keys values) = IsDecodable c keys × IsDecodable c values
  IsDecodable c (unions valid tags members) = AllDecodable c members

  pub AllDecodable : Calendar → Members → Type 0
  AllDecodable c no_member = Unit
  AllDecodable c (member label child members) = IsDecodable c child × AllDecodable c members

abbrev Succeeds : Decoded → Type 0
Succeeds d = (v : Value) × (d ≡ value v)

abbrev Fills : Filled → Type 0
Fills d = (es : Entries) × (d ≡ filled es)

nullable-Succeeds : (valid : Bool) (d : Decoded) → Succeeds d → Succeeds (nullable valid d)
nullable-Succeeds true d h = h
nullable-Succeeds false d h = (null, refl)

as_array-Succeeds : (d : Filled) → Fills d → Succeeds (as_array d)
as_array-Succeeds d (es, e) = (array es, ap as_array e)

within-Succeeds :
    (limit depth : ℕ) (d : Decoded) → depth < limit → Succeeds d → Succeeds (within limit depth d)
within-Succeeds limit depth d below (v, e) = (v, within-below limit depth d below ∙ e)

push-Fills :
    (key : Key) (d : Decoded) (rest : Filled) → Succeeds d → Fills rest → Fills (push key d rest)
push-Fills key d rest (v, e) (es, f) = (entry key v es, rw (e, f))

push_pair-Fills :
    (scalar_keys : Bool) (k v : Decoded) (rest : Filled)
    → Succeeds k
    → Succeeds v
    → Fills rest
    → Fills (push_pair scalar_keys k v rest)
push_pair-Fills true k v rest (k', e) (v', f) (es, g) = (entry (map_key k') v' es, rw (e, f, g))
push_pair-Fills false k v rest (k', e) (v', f) (es, g) = (entry next (pair k' v') es, rw (e, f, g))

decode_rows-Fills :
    (f : ℕ → Decoded) (row count : ℕ) → ((r : ℕ) → Succeeds (f r)) → Fills (decode_rows f row count)
unfolding decode_rows
decode_rows-Fills f row zero h = (nil, refl)
decode_rows-Fills f row (suc count) h =
    push-Fills next (f row) _ (h row) (decode_rows-Fills f (row + 1) count h)

decode_pairs-Fills :
    (scalar_keys : Bool) (f g : ℕ → Decoded) (row count : ℕ)
    → ((r : ℕ) → Succeeds (f r))
    → ((r : ℕ) → Succeeds (g r))
    → Fills (decode_pairs scalar_keys f g row count)
unfolding decode_pairs
decode_pairs-Fills scalar_keys f g row zero h k = (nil, refl)
decode_pairs-Fills scalar_keys f g row (suc count) h k =
    push_pair-Fills scalar_keys (f row) (g row) _ (h row) (k row)
      (decode_pairs-Fills scalar_keys f g (row + 1) count h k)

mutual
  unfolding decode_column levels IsDecodable

  column-Succeeds :
      (c : Calendar) (limit : ℕ) (column : Column) (depth row : ℕ)
      → depth + levels column ≤ limit
      → IsDecodable c column
      → Succeeds (decode_column c limit column depth row)
  column-Succeeds c limit (scalars valid cells) depth row h k =
      nullable-Succeeds (valid row) _ (k row)
  column-Succeeds c limit (lists valid entries child) depth row h k =
      nullable-Succeeds (valid row) _ (
        as_array-Succeeds _ (
          decode_rows-Fills _ (entries row).offset (entries row).length (λ r.
            within-Succeeds limit depth _ (omega arith)
              (column-Succeeds c limit child (suc depth) r (omega arith) k))))
  column-Succeeds c limit (arrays valid size child) depth row h k =
      nullable-Succeeds (valid row) _ (
        as_array-Succeeds _ (
          decode_rows-Fills _ (row * size) size (λ r.
            within-Succeeds limit depth _ (omega arith)
              (column-Succeeds c limit child (suc depth) r (omega arith) k))))
  column-Succeeds c limit (structs valid members) depth row h k =
      nullable-Succeeds (valid row) _
        (as_array-Succeeds _ (members-Fill c limit members depth row h k))
  column-Succeeds c limit (maps valid entries key keys values) depth row h (k, l) =
      let bounds = greater-le (levels keys) (levels values) in
      nullable-Succeeds (valid row) _ (
        as_array-Succeeds _ (
          decode_pairs-Fills (has_scalar_keys key) _ _ (entries row).offset (entries row).length
            (λ r.
              within-Succeeds limit depth _ (omega (arith, bounds))
                (column-Succeeds c limit keys (suc depth) r (omega (arith, bounds)) k))
            (λ r.
              within-Succeeds limit depth _ (omega (arith, bounds))
                (column-Succeeds c limit values (suc depth) r (omega (arith, bounds)) l))))
  column-Succeeds c limit (unions valid tags members) depth row h k =
      nullable-Succeeds (valid row) _ (nth-Succeeds c limit members (tags row) depth row h k)

  members-Fill :
      (c : Calendar) (limit : ℕ) (members : Members) (depth row : ℕ)
      → depth + member_levels members ≤ limit
      → AllDecodable c members
      → Fills (decode_members c limit members depth row)
  members-Fill c limit no_member depth row h k = (nil, refl)
  members-Fill c limit (member label child members) depth row h (k, l) =
      let bounds = greater-le (suc (levels child)) (member_levels members) in
      push-Fills (name (member_name label)) _ _
        (within-Succeeds limit depth _ (omega (arith, bounds))
          (column-Succeeds c limit child (suc depth) row (omega (arith, bounds)) k))
        (members-Fill c limit members depth row (omega (arith, bounds)) l)

  nth-Succeeds :
      (c : Calendar) (limit : ℕ) (members : Members) (tag depth row : ℕ)
      → depth + member_levels members ≤ limit
      → AllDecodable c members
      → Succeeds (decode_nth c limit members tag depth row)
  nth-Succeeds c limit no_member tag depth row h k = (null, refl)
  nth-Succeeds c limit (member label child members) zero depth row h (k, l) =
      let bounds = greater-le (suc (levels child)) (member_levels members) in
      within-Succeeds limit depth _ (omega (arith, bounds))
        (column-Succeeds c limit child (suc depth) row (omega (arith, bounds)) k)
  nth-Succeeds c limit (member label child members) (suc tag) depth row h (k, l) =
      let bounds = greater-le (suc (levels child)) (member_levels members) in
      nth-Succeeds c limit members tag depth row (omega (arith, bounds)) l

-- A cell of a type with at most 512 levels of children, all of whose scalars decode, decodes.
pub decode_value-succeeds :
    (c : Calendar) (column : Column) (row : ℕ)
    → levels column ≤ max_nesting_depth
    → IsDecodable c column
    → (v : Value) × (decode_value c column row ≡ value v)
decode_value-succeeds c column row h k =
    column-Succeeds c max_nesting_depth column 0 row (omega arith) k
