-- ===== src/Cells/Nested/Limit.antt =====
-- The nesting limit: types that stay below it decode as if there were none.
use php_duckdb.Prelude.{ℕ, suc, ◌≤◌, ◌<◌, ◌≡◌, arith, ltb, if◌then◌else◌}
use php_duckdb.Cells.Scalar.{Decoded}
use php_duckdb.Cells.Nested.{
  Column, scalars, lists, arrays, structs, maps, unions, Members, no_member, member, within,
}

abbrev pub greater : ℕ → ℕ → ℕ
greater a b = if ltb a b then b else a

pub greater-le : (a b : ℕ) → (a ≤ greater a b) × (b ≤ greater a b)
greater-le a b = ground arith

-- How many children lie below each other in a type.
unfoldable mutual
  pub levels : Column → ℕ
  levels (scalars valid cells) = 0
  levels (lists valid entries child) = suc (levels child)
  levels (arrays valid size child) = suc (levels child)
  levels (structs valid members) = member_levels members
  levels (maps valid entries key keys values) = suc (greater (levels keys) (levels values))
  levels (unions valid tags members) = member_levels members

  pub member_levels : Members → ℕ
  member_levels no_member = 0
  member_levels (member label child members) = greater (suc (levels child)) (member_levels members)

-- Below the limit the check passes.
pub within-below : (limit depth : ℕ) (d : Decoded) → depth < limit → within limit depth d ≡ d
within-below limit depth d h = ground arith
