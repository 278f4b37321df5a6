-- ===== src/Selection.antt =====
-- src/selection.cpp: immutable lists of row indices that pick rows of vectors and chunks.
pub mod Build
pub mod Rows
pub mod Gather
mod Tests
use php_duckdb.Prelude.{
  ℕ, zero, suc, ◌+◌, ◌-◌, ◌%◌, ◌^◌, Bool, true, false, not, ◌||◌, List, [], ◌∷◌, Option, none, some,
  length, ltb, leb, ◌==◌, if◌then◌else◌, get_or,
}
use php_duckdb.Prelude.Int.{ℤ, pos, negsuc}

-- `UINT32_MAX - 1`.
abbrev pub max_selection_index : ℕ
max_selection_index = 2 ^ 32 - 1 - 1

-- An element of a PHP array, references followed.
pub data Zval : Type 0 where
  long : ℤ → Zval
  other : Zval

pub record HashTable : Type 0 where
  pub is_list : Bool
  pub values : List Zval

-- `selection_data`: the 32-bit entries, their number and the greatest one.
pub record SelectionData : Type 0 where
  pub selection : List ℕ
  pub count : ℕ
  pub max_index : ℕ

pub data Error : Type 0 where
  not_a_list not_integers out_of_range wrong_type uninitialized : Error
  already_initialized no_memory : Error
  must_be_empty : Error
  index_too_large : ℕ → ℕ → Error
  empty_selection : Error
  position_too_large : ℕ → Error

pub data Result {ℓ} (A : Type ℓ) : Type ℓ where
  ok : A → Result A
  err : Error → Result A

abbrev is_index : ℤ → Bool
is_index (pos n) = leb n max_selection_index
is_index (negsuc n) = false

-- The first pass: the first entry that is no index decides the error.
unfoldable pub validate : List Zval → Option Error
validate [] = none
validate (other ∷ entries) = some not_integers
validate (long v ∷ entries) =
    let rest = validate entries in if is_index v then rest else some out_of_range

abbrev pub as_index : Zval → ℕ
as_index (long (pos n)) = n
as_index _ = 0

-- The second pass: each entry is stored in 32 bits, and the greatest is kept.
unfoldable pub fill : List Zval → ℕ → List ℕ × ℕ
fill [] greatest = ([], greatest)
fill (entry ∷ entries) greatest =
    let index = as_index entry in
    let (out, greatest') = fill entries (if ltb greatest index then index else greatest) in
    ((index % 2 ^ 32) ∷ out, greatest')

-- `selection_from_list`; `allocates` says whether the engine makes the native selection.
unfoldable pub selection_from_list : Bool → HashTable → Result SelectionData
selection_from_list allocates indices =
    if not indices.is_list then err not_a_list else elim (validate indices.values) [
      | some e ↦ err e
      | none ↦
          if allocates
          then (let (out, greatest) = fill indices.values 0 in
              ok (record { selection = out; count = length indices.values; max_index = greatest }))
          else err no_memory
    ]

-- An argument: a `SelectionVector` with its data, if it is initialised, an array, or anything else.
pub data Argument : Type 0 where
  selection_vector : Option SelectionData → Argument
  array : HashTable → Argument
  something_else : Argument

unfoldable pub selection_from_arg : Bool → Argument → Result SelectionData
selection_from_arg allocates (selection_vector none) = err uninitialized
selection_from_arg allocates (selection_vector (some d)) = ok d
selection_from_arg allocates (array indices) = selection_from_list allocates indices
selection_from_arg allocates something_else = err wrong_type

-- `duckdb_selection_check_source`: the error that is thrown, if any.
unfoldable pub check_source : SelectionData → ℕ → Option Error
check_source s source_size =
    if s.count == 0
    then none
    else if source_size == 0
    then some must_be_empty
    else if leb source_size s.max_index
    then some (index_too_large source_size s.max_index)
    else none

-- The vectors that exist, by their handles, with their rows.
abbrev pub Store {ℓ} : Type ℓ → Type ℓ
Store Row = ℕ → Option (List Row)

-- What the gather uses of the engine: `copy_sel source target indices count start offset` and
-- `copy_rows source target start count offset` copy between vectors, `create count` gives the handle of a new
-- vector, if it can be allocated, and `destroy` ends one.
pub record Engine {ℓ} (Row : Type ℓ) : Type ℓ where
  pub copy_sel : ℕ → ℕ → List ℕ → ℕ → ℕ → ℕ → Store Row → Store Row
  pub copy_rows : ℕ → ℕ → ℕ → ℕ → ℕ → Store Row → Store Row
  pub create : ℕ → Store Row → Option (ℕ × Store Row)
  pub destroy : ℕ → Store Row → Store Row

-- The gather of a selection that is not empty; the staged vector is destroyed at the end of its scope.
unfoldable pub gather_into {ℓ} :
    {Row : Type ℓ} → Engine Row → ℕ → ℕ → SelectionData → ℕ → Store Row → Result (Store Row)
gather_into engine source target s offset store =
    if not (source == target)
    then ok (engine.copy_sel source target s.selection s.count 0 offset store)
    else elim (engine.create s.count store) [
      | none ↦ err no_memory
      | some (staged, store1) ↦
          let store2 = engine.copy_sel source staged s.selection s.count 0 0 store1 in
          let store3 = engine.copy_rows staged target 0 s.count offset store2 in
          ok (engine.destroy staged store3)
    ]

-- `duckdb_selection_gather`: the vectors after it.
unfoldable pub gather {ℓ} :
    {Row : Type ℓ} → Engine Row → ℕ → ℕ → SelectionData → ℕ → Store Row → Result (Store Row)
gather engine source target s offset store =
    if s.count == 0 then ok store else gather_into engine source target s offset store

-- The methods of `DuckDB\SelectionVector`; the object holds its data once it is constructed.
unfoldable pub construct : Option SelectionData → Bool → HashTable → Result SelectionData
construct (some d) allocates indices = err already_initialized
construct none allocates indices = selection_from_list allocates indices

unfoldable pub count_method : Option SelectionData → Result ℕ
count_method none = err uninitialized
count_method (some d) = ok d.count

abbrev in_range : ℤ → ℕ → Bool
in_range (pos n) count = ltb n count
in_range (negsuc n) count = false

abbrev place : ℤ → ℕ
place (pos n) = n
place (negsuc n) = 0

unfoldable pub get_method : Option SelectionData → ℤ → Result ℕ
get_method none position = err uninitialized
get_method (some d) position =
    if not (in_range position d.count)
    then (if d.count == 0 then err empty_selection else err (position_too_large (d.count - 1)))
    else ok (get_or d.selection (place position) 0)

-- The loop of `toArray`, by the rounds that are left.
unfoldable pub copy_out : List ℕ → ℕ → ℕ → List ℕ
copy_out indices zero i = []
copy_out indices (suc rounds) i = get_or indices i 0 ∷ copy_out indices rounds (i + 1)

unfoldable pub to_array_method : Option SelectionData → Result (List ℕ)
to_array_method none = err uninitialized
to_array_method (some d) = if d.count == 0 then ok [] else ok (copy_out d.selection d.count 0)
