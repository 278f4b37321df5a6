-- ===== src/Selection/Build.antt =====
-- A selection holds the indices of the list from which it was built.
use php_duckdb.Prelude.{
  ℕ, suc, ◌+◌, ◌%◌, ◌^◌, ◌≤◌, ◌≡◌, ◌↔◌, inl, inr, refl, sym, ap, ◌∙◌, true, false, List, [], ◌∷◌,
  ◌++◌, append_assoc, none, some, arith, tests, length, get_or, All, length-append, ltb, leb, ◌==◌,
  if◌then◌else◌, Bool-cases, Option-cases,
}
use php_duckdb.Prelude.Int.{pos, negsuc}
use php_duckdb.Selection.{
  max_selection_index, Zval, long, other, HashTable, SelectionData, ok, validate, fill,
  selection_from_list, copy_out, to_array_method,
}

-- A list of row indices, as a PHP array.
abbrev pub of_indices : List ℕ → List Zval
of_indices [] = []
of_indices (n ∷ ns) = long (pos n) ∷ of_indices ns

abbrev pub IsIndex : ℕ → Type 0
IsIndex n = n ≤ max_selection_index

-- The greatest of the indices, or `m`.
abbrev pub greatest : List ℕ → ℕ → ℕ
greatest [] m = m
greatest (n ∷ ns) m = greatest ns (if ltb m n then n else m)

-- What passes the first pass is the array of some indices.
validate-none :
    (entries : List Zval)
    → validate entries ≡ none
    → (ns : List ℕ) × (entries ≡ of_indices ns) × All IsIndex ns
unfolding validate
validate-none [] e = ([], refl, tt)
validate-none (other ∷ entries) e = cc
validate-none (long (negsuc n) ∷ entries) e = cc
validate-none (long (pos n) ∷ entries) e =
    let small : leb n max_selection_index ≡ true = ground arith in
    let (ns, same, h) = validate-none entries (ground arith) in
    (n ∷ ns, ap (λ (es : List Zval). long (pos n) ∷ es) same, (omega tests, h))

validate-of_indices : (ns : List ℕ) → All IsIndex ns → validate (of_indices ns) ≡ none
unfolding validate
validate-of_indices [] h = refl
validate-of_indices (n ∷ ns) (small, h) = ground (arith, validate-of_indices ns h)

fill-of_indices :
    (ns : List ℕ) (m : ℕ) → All IsIndex ns → fill (of_indices ns) m ≡ (ns, greatest ns m)
unfolding fill
fill-of_indices [] m h = refl
fill-of_indices (n ∷ ns) m (small, h) =
    let same : n % 2 ^ 32 ≡ n = omega arith in
    rw (same, fill-of_indices ns (if ltb m n then n else m) h)

length-of_indices : (ns : List ℕ) → length (of_indices ns) ≡ length ns
length-of_indices [] = refl
length-of_indices (n ∷ ns) = ap suc (length-of_indices ns)

-- The selection of some indices.
abbrev pub selects : List ℕ → SelectionData
selects ns = record { selection = ns; count = length ns; max_index = greatest ns 0 }

pub selection_from_list-of_indices :
    (ns : List ℕ)
    → All IsIndex ns
    → selection_from_list true (record { is_list = true; values = of_indices ns }) ≡ ok (selects ns)
unfolding selection_from_list
selection_from_list-of_indices ns h =
    rw (validate-of_indices ns h, fill-of_indices ns 0 h, length-of_indices ns)

-- A list that is accepted is the list of some indices.
selection_from_list-accepted :
    (indices : HashTable) (d : SelectionData)
    → selection_from_list true indices ≡ ok d
    → (indices.is_list ≡ true) × (validate indices.values ≡ none)
unfolding selection_from_list
selection_from_list-accepted indices d e = elim (Bool-cases indices.is_list) [
  | inr f ↦ ground arith
  | inl t ↦ elim (Option-cases (validate indices.values)) [
    | inl h ↦ (t, h)
    | inr (x, h) ↦ ground arith
  ]
]

ok_injective : {a b : SelectionData} → ok a ≡ ok b → a ≡ b
ok_injective e = cc

table_eq :
    (indices : HashTable) (values : List Zval)
    → indices.is_list ≡ true
    → indices.values ≡ values
    → indices ≡ record { is_list = true; values = values }
table_eq indices values e f =
    let eta : indices ≡ record { is_list = indices.is_list; values = indices.values } = refl in
    eta ∙ cc

selection_from_list-ok :
    (indices : HashTable) (d : SelectionData)
    → selection_from_list true indices ≡ ok d
    → (indices.is_list ≡ true)
      × ((ns : List ℕ) × (indices.values ≡ of_indices ns) × All IsIndex ns × (d ≡ selects ns))
selection_from_list-ok indices d e =
    let (l, valid) = selection_from_list-accepted indices d e in
    let (ns, same, h) = validate-none indices.values valid in
    let whole = table_eq indices (of_indices ns) l same in
    let built = sym e ∙ ap (selection_from_list true) whole ∙ selection_from_list-of_indices ns h in
    (l, (ns, same, h, ok_injective built))

-- When the engine makes the native selection, one is built exactly from a list of integers between
-- 0 and 2 ^ 32 - 2, and it then holds those integers in order, none cut short, their number and the
-- greatest of them.
pub selection_from_list_iff :
    (indices : HashTable) (d : SelectionData)
    → (selection_from_list true indices ≡ ok d) ↔ (
        (indices.is_list ≡ true)
        × ((ns : List ℕ) × (indices.values ≡ of_indices ns) × All IsIndex ns × (d ≡ selects ns)))
selection_from_list_iff indices d = (forth, back)
  where
    forth :
        selection_from_list true indices ≡ ok d
        → (indices.is_list ≡ true)
          × ((ns : List ℕ) × (indices.values ≡ of_indices ns) × All IsIndex ns × (d ≡ selects ns))
    forth e = selection_from_list-ok indices d e

    back :
        (indices.is_list ≡ true)
          × ((ns : List ℕ) × (indices.values ≡ of_indices ns) × All IsIndex ns × (d ≡ selects ns))
        → selection_from_list true indices ≡ ok d
    back (l, (ns, same, h, e)) =
        let whole = table_eq indices (of_indices ns) l same in
        ap (selection_from_list true) whole ∙ selection_from_list-of_indices ns h ∙ ap ok (sym e)

copy_out-none : (xs : List ℕ) (i : ℕ) → copy_out xs 0 i ≡ []
unfolding copy_out
copy_out-none xs i = refl

copy_out-more :
    (xs : List ℕ) (rounds i : ℕ)
    → copy_out xs (suc rounds) i ≡ get_or xs i 0 ∷ copy_out xs rounds (i + 1)
unfolding copy_out
copy_out-more xs rounds i = refl

get_or-at : (before ns : List ℕ) (n : ℕ) → get_or (before ++ (n ∷ ns)) (length before) 0 ≡ n
get_or-at [] ns n = refl
get_or-at (x ∷ before) ns n = get_or-at before ns n

-- The loop of `toArray` over the entries behind some others.
copy_out-all : (before ns : List ℕ) → copy_out (before ++ ns) (length ns) (length before) ≡ ns
copy_out-all before [] = copy_out-none (before ++ []) (length before)
copy_out-all before (n ∷ ns) =
    let later = copy_out-all (before ++ (n ∷ [])) ns in
    let same = append_assoc before (n ∷ []) ns in
    let next : length before + 1 ≡ length (before ++ (n ∷ [])) =
      omega (arith, length-append before (n ∷ [])) in
    copy_out-more (before ++ (n ∷ ns)) (length ns) (length before)
    ∙ ap (λ (k : ℕ). k ∷ copy_out (before ++ (n ∷ ns)) (length ns) (length before + 1))
        (get_or-at before ns n)
    ∙ ap (λ (i : ℕ). n ∷ copy_out (before ++ (n ∷ ns)) (length ns) i) next
    ∙ ap (λ (xs : List ℕ). n ∷ copy_out xs (length ns) (length (before ++ (n ∷ [])))) (sym same)
    ∙ ap (λ (xs : List ℕ). n ∷ xs) later

-- `toArray` of the selection of some indices gives them back in order.
to_array-built : (ns : List ℕ) → to_array_method (some (selects ns)) ≡ ok ns
unfolding to_array_method
to_array-built [] = refl
to_array-built (n ∷ ns) =
    let nonzero : (suc (length ns) == 0) ≡ false = ground arith in
    rw nonzero (ap ok (copy_out-all [] (n ∷ ns)))
