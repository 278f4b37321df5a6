-- ===== src/Selection/Tests.antt =====
-- Runs of the selections, and their theorems at concrete lists.
use php_duckdb.Prelude.{
  ℕ, zero, suc, ◌≡◌, ◌≢◌, ◌↔◌, ◌⊎◌, refl, ap, ◌∙◌, true, false, List, [], ◌∷◌, Option, none, some,
  arith, length, take, drop, All, ◌==◌, if◌then◌else◌,
}
use mathlib.Core.Path.{subst}
use php_duckdb.Selection.{
  HashTable, selection_from_list, ok, err, no_memory, Store, Engine, gather, fill, validate,
}
use php_duckdb.Selection.Build.{of_indices, IsIndex, selects, selection_from_list_iff}
use php_duckdb.Selection.Rows.{overwrite, picks}
use php_duckdb.Selection.Gather.{IsWritten, Copies, Gathers, gather-overwrite}

abbrev chosen_rows : List ℕ
chosen_rows = 2 ∷ 0 ∷ 2 ∷ []

abbrev as_array : HashTable
as_array = record { is_list = true; values = of_indices chosen_rows }

selection_from_list_iff_example : (selection_from_list true as_array ≡ ok (selects chosen_rows)) ↔ (
    (true ≡ true)
    × ((ns : List ℕ) × (as_array.values ≡ of_indices ns)
        × All IsIndex ns
        × (selects chosen_rows ≡ selects ns)))
selection_from_list_iff_example = selection_from_list_iff as_array (selects chosen_rows)

abbrev blank : ℕ → List ℕ
blank zero = []
blank (suc n) = 0 ∷ blank n

length-blank : (n : ℕ) → length (blank n) ≡ n
length-blank zero = refl
length-blank (suc n) = ap suc (length-blank n)

whole : (ns : List ℕ) → take (length ns) ns ≡ ns
whole [] = refl
whole (n ∷ ns) = ap (λ (ms : List ℕ). n ∷ ms) (whole ns)

-- A store in which one vector has new rows, or is no more.
abbrev set : Store ℕ → ℕ → Option (List ℕ) → Store ℕ
set store v rows u = if u == v then rows else store u

abbrev rows_at : Option (List ℕ) → List ℕ
rows_at none = []
rows_at (some rows) = rows

-- The engine gives the handle 100, when it is free.
abbrev create_100 : ℕ → Store ℕ → Option (List ℕ) → Option (ℕ × Store ℕ)
create_100 count store (some rows) = none
create_100 count store none = some (100, set store 100 (some (blank count)))

-- An engine whose copiers do what they promise.
abbrev copying : Engine ℕ
copying = record {
  copy_sel = λ source target ns count start offset store. set store target (
      some (
        overwrite (rows_at (store target)) offset
          (picks (rows_at (store source)) (take count ns) 0)));
  copy_rows = λ source target start count offset store. set store target (
      some (
        overwrite (rows_at (store target)) offset
          (take count (drop start (rows_at (store source))))));
  create = λ count store. create_100 count store (store 100);
  destroy = λ v store. set store v none;
}

set-others :
    (store : Store ℕ) (v : ℕ) (rows : Option (List ℕ)) (u : ℕ)
    → u ≢ v
    → set store v rows u ≡ store u
set-others store v rows u other = let f : (u == v) ≡ false = ground arith in rw f

set-same : (store : Store ℕ) (v : ℕ) (rows : Option (List ℕ)) → set store v rows v ≡ rows
set-same store v rows = let t : (v == v) ≡ true = ground arith in rw t

create_100-rows :
    (count v : ℕ) (store after : Store ℕ) (there : Option (List ℕ))
    → store 100 ≡ there
    → create_100 count store there ≡ some (v, after)
    → (store v ≡ none) × ((rows : List ℕ) × (length rows ≡ count) × IsWritten store v rows after)
create_100-rows count v store after (some rows) at e = cc
create_100-rows count v store after none at e =
    let handle : 100 ≡ v = cc in
    let new : set store 100 (some (blank count)) ≡ after = cc in
    subst
      (λ k.
        (store k ≡ none) × ((rows : List ℕ) × (length rows ≡ count) × IsWritten store k rows after))
      handle
      (subst
        (λ (t : Store ℕ).
          (store 100 ≡ none)
          × ((rows : List ℕ) × (length rows ≡ count) × IsWritten store 100 rows t))
        new
        (
          at,
          (
            blank count,
            length-blank count,
            (refl, λ u other. set-others store 100 (some (blank count)) u other),
          ),
        ))

copying-Copies : Copies copying 0
copying-Copies = record {
  copy_sel_rows = λ source target ns offset store rows held apart at to h fits. (
    set-same store target _
        ∙ ap
            (λ (ms : List ℕ).
              some
                (overwrite (rows_at (store target)) offset (picks (rows_at (store source)) ms 0)))
            (whole ns)
        ∙ rw (at, to) refl,
    λ u other. set-others store target _ u other,
  );
  copy_rows_rows = λ source target count offset store rows held apart at to h fits.
      (set-same store target _ ∙ rw (at, to) refl, λ u other. set-others store target _ u other);
  create_rows = λ count v store after e. create_100-rows count v store after (store 100) refl e;
  destroy_rows = λ v store. (set-same store v none, λ u other. set-others store v none u other);
}

abbrev vector_3 : ℕ
vector_3 = 3

-- Vector 3 and vector 5.
abbrev two_vectors : Store ℕ
two_vectors v = if v == 3 then some (7 ∷ 8 ∷ 9 ∷ []) else if v == 5 then some (1 ∷ 2 ∷ []) else none

gather-overwrite_example :
    ((vector_3 ≡ 3)
      × (copying.create 2 two_vectors ≡ none)
      × (gather copying 3 3 (selects (2 ∷ 0 ∷ [])) 1 two_vectors ≡ err no_memory))
    ⊎ Gathers copying 0 copying-Copies two_vectors 3
        (7 ∷ 9 ∷ 7 ∷ [])
        (gather copying 3 3 (selects (2 ∷ 0 ∷ [])) 1 two_vectors)
gather-overwrite_example =
    gather-overwrite copying 0 copying-Copies 3 3 (2 ∷ 0 ∷ []) 1 two_vectors (7 ∷ 8 ∷ 9 ∷ [])
      (7 ∷ 8 ∷ 9 ∷ []) refl refl (omega arith, (omega arith, tt)) (omega arith)

built : selection_from_list true as_array ≡ ok (selects chosen_rows)
unfolding selection_from_list validate fill
built = refl
