-- ===== src/Appender/Batches.antt =====
-- How `duckdb_appender_append_chunk` cuts a chunk that is larger than the engine's vectors.
use php_duckdb.Prelude.{
  ℕ, zero, suc, ◌+◌, ◌-◌, ◌%◌, ◌^◌, ◌≤◌, ◌<◌, ◌≡◌, inl, inr, refl, sym, ap, ◌∙◌, true, false, List,
  [], ◌∷◌, ◌++◌, append-nil, arith, tests, length, get_or, All, ltb, leb, if◌then◌else◌, Bool-cases,
}
use mathlib.Core.Path.{subst}
use php_duckdb.Appender.{State, Env, Done}
use php_duckdb.Appender.Methods.{append_chunk_method}
use php_duckdb.Appender.Ranges.{
  range, range-append, length-range, range-Below, picks-append, picks-whole,
}
use php_duckdb.Selection.Rows.{picks, Below}

abbrev pub minimum : ℕ → ℕ → ℕ
minimum a b = if ltb b a then b else a

-- A `duckdb_data_chunk`: its number of rows, and its columns with their rows.
pub record Chunk (Cell : Type 0) : Type 0 where
  pub size : ℕ
  pub columns : List (List Cell)

-- `duckdb_vector_copy_sel` into a column of the batch after its reset: from a column, the entries of a selection and the
-- number of them to read, the rows that the batch's column then has.
abbrev pub Copier : Type 0 → Type 0
Copier Cell = List Cell → List ℕ → ℕ → List Cell

-- The entries that the loop over the rows of a batch writes, in 32 bits each, from a row on; the copier reads no
-- other entries of the selection.
unfoldable pub fill_indices : ℕ → ℕ → ℕ → List ℕ
fill_indices offset row zero = []
fill_indices offset row (suc rounds) =
    ((offset + row) % 2 ^ 32) ∷ fill_indices offset (row + 1) rounds

module _ {Cell : Type 0} where
  unfoldable pub copy_columns : Copier Cell → List ℕ → ℕ → List (List Cell) → List (List Cell)
  copy_columns copy indices count [] = []
  copy_columns copy indices count (column ∷ columns) =
      copy column indices count ∷ copy_columns copy indices count columns

  -- One round of the loop over the offsets.
  abbrev pub batch_at : Copier Cell → List (List Cell) → ℕ → ℕ → Chunk Cell
  batch_at copy columns offset count = record {
    size = count;
    columns = copy_columns copy (fill_indices offset 0 count) count columns;
  }

  -- The loop over the offsets. There are fewer batches than rows, so the number of rows is enough fuel.
  unfoldable pub cut : Copier Cell → List (List Cell) → ℕ → ℕ → ℕ → ℕ → List (Chunk Cell)
  cut copy columns zero vector_size size offset = []
  cut copy columns (suc fuel) vector_size size offset =
      let rest = cut copy columns fuel vector_size size (offset + vector_size) in
      if ltb offset size
      then batch_at copy columns offset (minimum vector_size (size - offset)) ∷ rest
      else []

  -- The batches that are submitted: the chunk itself, if it is small enough.
  unfoldable pub batches : Copier Cell → ℕ → Chunk Cell → List (Chunk Cell)
  batches copy vector_size chunk =
      if leb chunk.size vector_size
      then chunk ∷ []
      else cut copy chunk.columns chunk.size vector_size chunk.size 0

  -- `appendChunk` and `appendArrow` for a chunk.
  unfoldable pub append_sized : Copier Cell → ℕ → Chunk Cell → Env → State → Done
  append_sized copy vector_size chunk =
      append_chunk_method (length (batches copy vector_size chunk))

join :
    (vector_size left offset : ℕ)
    → range offset (minimum vector_size left) ++ range (offset + vector_size) (left - vector_size)
      ≡ range offset left
join vector_size left offset = elim (Bool-cases (ltb left vector_size)) [
  | inl t ↦
      let all : minimum vector_size left ≡ left = rw t in
      ap (λ (k : ℕ). range offset k ++ range (offset + vector_size) (left - vector_size)) all
      ∙ ap (λ (k : ℕ). range offset left ++ range (offset + vector_size) k) {x = left - vector_size}
          {y = 0} (omega tests)
      ∙ append-nil (range offset left)
  | inr f ↦
      let full : minimum vector_size left ≡ vector_size = rw f in
      ap (λ (k : ℕ). range offset k ++ range (offset + vector_size) (left - vector_size)) full
      ∙ range-append offset vector_size (left - vector_size)
      ∙ ap (range offset) {x = vector_size + (left - vector_size)} {y = left} (omega tests)
]

minimum-le : (a b : ℕ) → minimum a b ≤ a
minimum-le a b = elim (Bool-cases (ltb b a)) [
  | inl t ↦ let e : minimum a b ≡ b = rw t in subst (λ k. k ≤ a) (sym e) (omega tests)
  | inr f ↦ let e : minimum a b ≡ a = rw f in subst (λ k. k ≤ a) (sym e) (omega arith)
]

minimum-le_right : (a b : ℕ) → minimum a b ≤ b
minimum-le_right a b = elim (Bool-cases (ltb b a)) [
  | inl t ↦ let e : minimum a b ≡ b = rw t in subst (λ k. k ≤ b) (sym e) (omega arith)
  | inr f ↦ let e : minimum a b ≡ a = rw f in subst (λ k. k ≤ b) (sym e) (omega tests)
]

-- Below 2 ^ 32 nothing is lost of an index.
fill_indices-range :
    (offset row count : ℕ)
    → offset + row + count ≤ 2 ^ 32
    → fill_indices offset row count ≡ range (offset + row) count
unfolding fill_indices
fill_indices-range offset row zero h = refl
fill_indices-range offset row (suc count) h =
    let whole : (offset + row) % 2 ^ 32 ≡ offset + row = omega arith in
    let rest = fill_indices-range offset (row + 1) count (omega arith) in
    ap (λ (n : ℕ). n ∷ fill_indices offset (row + 1) count) whole
    ∙ ap (λ (ns : List ℕ). (offset + row) ∷ ns) rest
    ∙ ap (λ (k : ℕ). (offset + row) ∷ range k count) {x = offset + (row + 1)} {y = offset + row + 1}
        (omega arith)

-- What the engine documents of its copier: for entries below the number of rows of a column, the rows that they name.
pub record CopiesRows {Cell : Type 0} (copy : Copier Cell) (missing : Cell) : Type 0 where
  pub copy_picks :
      (column : List Cell) (indices : List ℕ)
      → All (Below (length column)) indices
      → copy column indices (length indices) ≡ picks column indices missing

module _ {Cell : Type 0} where
  -- The rows of a column in a sequence of batches.
  abbrev pub column_of : ℕ → List (Chunk Cell) → List Cell
  column_of j [] = []
  column_of j (batch ∷ rest) = get_or batch.columns j [] ++ column_of j rest

  abbrev pub IsBounded : ℕ → Chunk Cell → Type 0
  IsBounded vector_size batch = batch.size ≤ vector_size

  get_or-copy_columns :
      (copy : Copier Cell) (indices : List ℕ) (count : ℕ) (columns : List (List Cell)) (j : ℕ)
      → j < length columns
      → get_or (copy_columns copy indices count columns) j []
        ≡ copy (get_or columns j []) indices count
  unfolding copy_columns
  get_or-copy_columns copy indices count [] j h = elim h [ ]
  get_or-copy_columns copy indices count (column ∷ columns) zero h = refl
  get_or-copy_columns copy indices count (column ∷ columns) (suc j) h =
      get_or-copy_columns copy indices count columns j (omega arith)

  cut-here :
      (copy : Copier Cell) (columns : List (List Cell)) (fuel vector_size size offset : ℕ)
      → ltb offset size ≡ true
      → cut copy columns (suc fuel) vector_size size offset
        ≡ batch_at copy columns offset (minimum vector_size (size - offset))
          ∷ cut copy columns fuel vector_size size (offset + vector_size)
  unfolding cut
  cut-here copy columns fuel vector_size size offset e = rw e

  cut-end :
      (copy : Copier Cell) (columns : List (List Cell)) (fuel vector_size size offset : ℕ)
      → ltb offset size ≡ false
      → cut copy columns fuel vector_size size offset ≡ []
  unfolding cut
  cut-end copy columns zero vector_size size offset e = refl
  cut-end copy columns (suc fuel) vector_size size offset e = rw e

  cut-IsBounded :
      (copy : Copier Cell) (columns : List (List Cell)) (fuel vector_size size offset : ℕ)
      → All (IsBounded vector_size) (cut copy columns fuel vector_size size offset)
  cut-IsBounded copy columns zero vector_size size offset = unfold cut in tt
  cut-IsBounded copy columns (suc fuel) vector_size size offset =
      elim (Bool-cases (ltb offset size)) [
        | inr f ↦
            subst (All (IsBounded vector_size))
              (sym (cut-end copy columns (suc fuel) vector_size size offset f)) tt
        | inl t ↦
            subst (All (IsBounded vector_size))
              (sym (cut-here copy columns fuel vector_size size offset t))
              (
                minimum-le vector_size (size - offset),
                cut-IsBounded copy columns fuel vector_size size (offset + vector_size),
              )
      ]

module _ {Cell : Type 0} (copy : Copier Cell) (missing : Cell) (copies : CopiesRows copy missing)
    (columns : List (List Cell)) (j : ℕ) (known : j < length columns) where
  -- The column of a batch holds the rows from its offset on.
  batch_at-column :
      (offset count : ℕ)
      → offset + count ≤ length (get_or columns j [])
      → length (get_or columns j []) ≤ 2 ^ 32
      → get_or (batch_at copy columns offset count).columns j []
        ≡ picks (get_or columns j []) (range offset count) missing
  batch_at-column offset count fits small =
      let column = get_or columns j [] in
      let indices : fill_indices offset 0 count ≡ range offset count =
        fill_indices-range offset 0 count (omega arith)
        ∙ ap (λ (k : ℕ). range k count) {x = offset + 0} {y = offset} (omega arith) in
      let picked : copy column (range offset count) count
          ≡ picks column (range offset count) missing =
        subst (λ k. copy column (range offset count) k ≡ picks column (range offset count) missing)
          (length-range offset count)
          (copies.copy_picks column (range offset count)
            (range-Below offset count (length column) fits)) in
      get_or-copy_columns copy (fill_indices offset 0 count) count columns j known
      ∙ ap (λ (ns : List ℕ). copy column ns count) indices
      ∙ picked

  -- The batches from an offset on hold the rows from there on.
  cut-column :
      (fuel vector_size size offset : ℕ)
      → length (get_or columns j []) ≡ size
      → size ≤ 2 ^ 32
      → 0 < vector_size
      → size ≤ offset + fuel
      → column_of j (cut copy columns fuel vector_size size offset)
        ≡ picks (get_or columns j []) (range offset (size - offset)) missing
  cut-column zero vector_size size offset whole small positive enough =
      ap (column_of j) (cut-end copy columns zero vector_size size offset (ground arith))
      ∙ ap (λ (k : ℕ). picks (get_or columns j []) (range offset k) missing) {x = 0}
          {y = size - offset} (omega arith)
  cut-column (suc fuel) vector_size size offset whole small positive enough =
      elim (Bool-cases (ltb offset size)) [
        | inr f ↦
            ap (column_of j) (cut-end copy columns (suc fuel) vector_size size offset f)
            ∙ ap (λ (k : ℕ). picks (get_or columns j []) (range offset k) missing) {x = 0}
                {y = size - offset} (omega tests)
        | inl t ↦
            let column = get_or columns j [] in
            let count = minimum vector_size (size - offset) in
            let least = minimum-le_right vector_size (size - offset) in
            let rest =
              cut-column fuel vector_size size (offset + vector_size) whole small positive
                (omega arith) in
            let head =
              batch_at-column offset count (omega (tests, least, whole)) (omega (arith, whole)) in
            let later : size - (offset + vector_size) ≡ size - offset - vector_size = omega arith in
            ap (column_of j) (cut-here copy columns fuel vector_size size offset t)
            ∙ ap
                (λ (xs : List Cell).
                  xs ++ column_of j (cut copy columns fuel vector_size size (offset + vector_size)))
                head
            ∙ ap (λ (xs : List Cell). picks column (range offset count) missing ++ xs) rest
            ∙ sym (
                picks-append column (range offset count)
                  (range (offset + vector_size) (size - (offset + vector_size))) missing)
            ∙ ap
                (λ (k : ℕ).
                  picks column (range offset count ++ range (offset + vector_size) k) missing)
                later
            ∙ ap (λ (ns : List ℕ). picks column ns missing)
                (join vector_size (size - offset) offset)
      ]

-- When the engine's vectors hold any row at all, its copier does what it documents, and a chunk has at most 2 ^ 32
-- rows and as many in a column as in all, that column is, row by row and in order, what the submitted batches
-- hold in it one behind the other, and no batch is larger than a vector.
pub batches-rows :
    {Cell : Type 0} (copy : Copier Cell) (missing : Cell) (vector_size : ℕ) (chunk : Chunk Cell)
    (j : ℕ)
    → CopiesRows copy missing
    → 0 < vector_size
    → chunk.size ≤ 2 ^ 32
    → j < length chunk.columns
    → length (get_or chunk.columns j []) ≡ chunk.size
    → (column_of j (batches copy vector_size chunk) ≡ get_or chunk.columns j [])
      × All (IsBounded vector_size) (batches copy vector_size chunk)
unfolding batches
batches-rows copy missing vector_size chunk j copies positive small known whole =
    elim (Bool-cases (leb chunk.size vector_size)) [
      | inl t ↦ rw t (append-nil (get_or chunk.columns j []), (omega tests, tt))
      | inr f ↦
          let column = get_or chunk.columns j [] in
          rw f (
            cut-column copy missing copies chunk.columns j known chunk.size vector_size chunk.size 0
                  whole small positive (omega arith)
                ∙ ap (λ (k : ℕ). picks column (range 0 k) missing) {x = chunk.size - 0}
                    {y = length column} (omega (arith, whole))
                ∙ picks-whole column missing,
            cut-IsBounded copy chunk.columns chunk.size vector_size chunk.size 0,
          )
    ]
