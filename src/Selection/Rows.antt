-- ===== src/Selection/Rows.antt =====
-- Rows of vectors that a selection picks or that are overwritten, and the check of a selection against a source.
use php_duckdb.Prelude.{
  ℕ, zero, suc, ◌+◌, ◌≤◌, ◌<◌, ◌≡◌, ◌↔◌, inl, inr, refl, sym, ap, ◌∙◌, List, [], ◌∷◌, ◌++◌,
  append-nil, none, arith, tests, length, take, drop, get_or, All, ltb, if◌then◌else◌, Bool-cases,
}
use mathlib.Core.Path.{subst}
use php_duckdb.Selection.{SelectionData, check_source}
use php_duckdb.Selection.Build.{selects, greatest}

module _ {ℓ} {Row : Type ℓ} where
  -- `target` with `rows` from `offset` on.
  abbrev pub overwrite : List Row → ℕ → List Row → List Row
  overwrite target offset rows = take offset target ++ rows ++ drop (offset + length rows) target

  pub take-drop : (n : ℕ) (rows : List Row) → take n rows ++ drop n rows ≡ rows
  take-drop zero rows = refl
  take-drop (suc n) [] = refl
  take-drop (suc n) (x ∷ rows) = ap (λ (ys : List Row). x ∷ ys) (take-drop n rows)

  pub overwrite-empty : (rows : List Row) (offset : ℕ) → overwrite rows offset [] ≡ rows
  overwrite-empty rows offset =
      ap (λ (k : ℕ). take offset rows ++ [] ++ drop k rows) {x = offset + 0} {y = offset}
        (omega arith)
      ∙ ap (λ (zs : List Row). zs ++ drop offset rows) (append-nil (take offset rows))
      ∙ take-drop offset rows

  pub drop-all : (rows : List Row) (n : ℕ) → length rows ≤ n → drop n rows ≡ []
  drop-all [] zero h = refl
  drop-all [] (suc n) h = refl
  drop-all (x ∷ rows) zero h = elim h [ ]
  drop-all (x ∷ rows) (suc n) h = drop-all rows n (omega arith)

  pub take-all : (rows : List Row) → take (length rows) rows ≡ rows
  take-all [] = refl
  take-all (x ∷ rows) = ap (λ (ys : List Row). x ∷ ys) (take-all rows)

  -- The rows of `source` that `indices` name, in their order.
  abbrev pub picks : List Row → List ℕ → Row → List Row
  picks source [] r = []
  picks source (n ∷ ns) r = get_or source n r ∷ picks source ns r

  pub length-picks :
      (source : List Row) (ns : List ℕ) (r : Row) → length (picks source ns r) ≡ length ns
  length-picks source [] r = refl
  length-picks source (n ∷ ns) r = ap suc (length-picks source ns r)

abbrev pub Below : ℕ → ℕ → Type 0
Below size n = n < size

greater_bounds : (m n size : ℕ) → (if ltb m n then n else m) < size → (m < size) × (n < size)
greater_bounds m n size h = elim (Bool-cases (ltb m n)) [
  | inl t ↦
      let e : (if ltb m n then n else m) ≡ n = rw t in
      let hn : n < size = subst (λ k. k < size) e h in (omega tests, hn)
  | inr f ↦
      let e : (if ltb m n then n else m) ≡ m = rw f in
      let hm : m < size = subst (λ k. k < size) e h in (hm, omega tests)
]

greater_bounded : (m n size : ℕ) → m < size → n < size → (if ltb m n then n else m) < size
greater_bounded m n size hm hn = elim (Bool-cases (ltb m n)) [
  | inl t ↦ subst (λ k. k < size) (sym (rw t)) hn
  | inr f ↦ subst (λ k. k < size) (sym (rw f)) hm
]

greatest-Below :
    (ns : List ℕ) (m size : ℕ) → greatest ns m < size → (m < size) × All (Below size) ns
greatest-Below [] m size h = (h, tt)
greatest-Below (n ∷ ns) m size h =
    let (least, rest) = greatest-Below ns (if ltb m n then n else m) size h in
    let (hm, hn) = greater_bounds m n size least in (hm, (hn, rest))

Below-greatest : (ns : List ℕ) (m size : ℕ) → m < size → All (Below size) ns → greatest ns m < size
Below-greatest [] m size h hs = h
Below-greatest (n ∷ ns) m size h (hn, hs) =
    Below-greatest ns (if ltb m n then n else m) size (greater_bounded m n size h hn) hs

-- The check of a selection that is not empty.
check_source-none :
    (s : SelectionData) (size : ℕ) → 0 < s.count → s.max_index < size → check_source s size ≡ none
unfolding check_source
check_source-none s size some_rows h = ground arith

check_source-below :
    (s : SelectionData) (size : ℕ) → 0 < s.count → check_source s size ≡ none → s.max_index < size
unfolding check_source
check_source-below s size some_rows e = ground arith

-- The selection of some indices passes the check against a source of `size` rows exactly if each
-- index is below `size`.
check_source_iff :
    (ns : List ℕ) (size : ℕ) → (check_source (selects ns) size ≡ none) ↔ All (Below size) ns
unfolding check_source
check_source_iff [] size = ((λ e. tt), (λ h. refl))
check_source_iff (n ∷ ns) size = (forth, back)
  where
    forth : check_source (selects (n ∷ ns)) size ≡ none → All (Below size) (n ∷ ns)
    forth e =
        (greatest-Below (n ∷ ns) 0 size
          (check_source-below (selects (n ∷ ns)) size (omega arith) e)).1

    back : All (Below size) (n ∷ ns) → check_source (selects (n ∷ ns)) size ≡ none
    back (hn, h) =
        check_source-none (selects (n ∷ ns)) size (omega arith)
          (Below-greatest (n ∷ ns) 0 size (omega arith) (hn, h))
