-- ===== src/Appender/Ranges.antt =====
-- Consecutive numbers, and the rows of a column that they pick.
use php_duckdb.Prelude.{
  ℕ, zero, suc, ◌+◌, ◌≤◌, ◌≡◌, refl, ap, ◌∙◌, List, [], ◌∷◌, ◌++◌, arith, length, get_or, All,
}
use php_duckdb.Selection.Rows.{picks, Below}

-- `count` numbers from `n` on.
abbrev pub range : ℕ → ℕ → List ℕ
range n zero = []
range n (suc count) = n ∷ range (n + 1) count

pub range-append : (n a b : ℕ) → range n a ++ range (n + a) b ≡ range n (a + b)
range-append n zero b =
    ap (λ (k : ℕ). range k b) {x = n + 0} {y = n} (omega arith)
    ∙ ap (range n) {x = b} {y = 0 + b} (omega arith)
range-append n (suc a) b =
    let later = range-append (n + 1) a b in
    ap (λ (k : ℕ). n ∷ (range (n + 1) a ++ range k b)) {x = n + suc a} {y = n + 1 + a} (omega arith)
    ∙ ap (λ (ms : List ℕ). n ∷ ms) later
    ∙ ap (range n) {x = suc (a + b)} {y = suc a + b} (omega arith)

pub length-range : (n count : ℕ) → length (range n count) ≡ count
length-range n zero = refl
length-range n (suc count) = ap suc (length-range (n + 1) count)

pub range-Below : (n count size : ℕ) → n + count ≤ size → All (Below size) (range n count)
range-Below n zero size h = tt
range-Below n (suc count) size h = (omega arith, range-Below (n + 1) count size (omega arith))

module _ {Cell : Type 0} where
  pub picks-append :
      (column : List Cell) (ns ms : List ℕ) (missing : Cell)
      → picks column (ns ++ ms) missing ≡ picks column ns missing ++ picks column ms missing
  picks-append column [] ms missing = refl
  picks-append column (n ∷ ns) ms missing =
      ap (λ (xs : List Cell). get_or column n missing ∷ xs) (picks-append column ns ms missing)

  picks-shift :
      (x : Cell) (column : List Cell) (n count : ℕ) (missing : Cell)
      → picks (x ∷ column) (range (n + 1) count) missing ≡ picks column (range n count) missing
  picks-shift x column n zero missing = refl
  picks-shift x column n (suc count) missing =
      ap
        (λ (k : ℕ).
          get_or (x ∷ column) k missing ∷ picks (x ∷ column) (range (n + 1 + 1) count) missing)
        {x = n + 1} {y = suc n} (omega arith)
      ∙ ap (λ (xs : List Cell). get_or column n missing ∷ xs)
          (picks-shift x column (n + 1) count missing)

  pub picks-whole :
      (column : List Cell) (missing : Cell)
      → picks column (range 0 (length column)) missing ≡ column
  picks-whole [] missing = refl
  picks-whole (x ∷ column) missing =
      ap (λ (xs : List Cell). x ∷ xs)
        (ap (λ (k : ℕ). picks (x ∷ column) (range k (length column)) missing) {x = 1} {y = 0 + 1}
            (omega arith)
          ∙ picks-shift x column 0 (length column) missing
          ∙ picks-whole column missing)
