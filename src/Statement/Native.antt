-- ===== src/Statement/Native.antt =====
-- What the engine holds for each index after an execution has bound its parameters.
use mathlib.Core.Path.{subst}
use php_duckdb.Prelude.{
  ℕ, ◌≡◌, inl, inr, refl, sym, ap, ◌∙◌, Bool, true, false, List, [], ◌∷◌, ◌++◌, Option, none, some,
  arith, ◌==◌, ==_iff, if◌then◌else◌, Bool-cases,
}
use php_duckdb.Statement.{
  Engine, Supplied, set_native, find, update, delete, is_supplied, add_deferred, bind_converted,
}

module _ {Z : Type 0} where
  -- The last value that is supplied for an index.
  abbrev pub last_for : ℕ → Option Z → Supplied Z → Option Z
  last_for i found [] = found
  last_for i found ((j, z) ∷ supplied) = last_for i (if j == i then some z else found) supplied

  abbrev pub or_else : Option Z → Option Z → Option Z
  or_else none o = o
  or_else (some z) o = some z

  -- What counts for an index at an execution: the last value that is supplied, else the deferred one.
  abbrev pub counts : ℕ → Supplied Z → Supplied Z → Option Z
  counts i supplied deferred = or_else (last_for i none supplied) (find i deferred)

  -- No index stands twice in a table.
  abbrev pub IsTable : Supplied Z → Type 0
  IsTable [] = Unit
  IsTable ((i, z) ∷ table) = (find i table ≡ none) × IsTable table

  pub find-update :
      (i j : ℕ) (z : Z) (table : Supplied Z)
      → find i (update j z table) ≡ (if j == i then some z else find i table)
  find-update i j z [] = refl
  find-update i j z ((k, y) ∷ table) = let rest = find-update i j z table in grind arith

  pub find-delete :
      (i j : ℕ) (table : Supplied Z)
      → IsTable table
      → find i (delete j table) ≡ (if j == i then none else find i table)
  find-delete i j [] h = ground arith
  find-delete i j ((k, y) ∷ table) (h, hs) = let rest = find-delete i j table hs in grind arith

  pub update-IsTable :
      (j : ℕ) (z : Z) (table : Supplied Z) → IsTable table → IsTable (update j z table)
  update-IsTable j z [] h = (refl, tt)
  update-IsTable j z ((k, y) ∷ table) (h, hs) = elim (Bool-cases (k == j)) [
    | inl e ↦ rw e (h, hs)
    | inr e ↦
        let f : (j == k) ≡ false = grind arith in
        rw e (find-update k j z table ∙ rw (f, h) refl, update-IsTable j z table hs)
  ]

  pub delete-IsTable : (j : ℕ) (table : Supplied Z) → IsTable table → IsTable (delete j table)
  delete-IsTable j [] h = tt
  delete-IsTable j ((k, y) ∷ table) (h, hs) = elim (Bool-cases (k == j)) [
    | inl e ↦ rw e hs
    | inr e ↦
        let f : (j == k) ≡ false = grind arith in
        rw e (find-delete k j table hs ∙ rw (f, h) refl, delete-IsTable j table hs)
  ]

  last_for-found :
      (i : ℕ) (z : Z) (supplied : Supplied Z) → (y : Z) × (last_for i (some z) supplied ≡ some y)
  last_for-found i z [] = (z, refl)
  last_for-found i z ((j, x) ∷ supplied) = elim (Bool-cases (j == i)) [
    | inl e ↦ rw e (last_for-found i x supplied)
    | inr e ↦ rw e (last_for-found i z supplied)
  ]

  last_for-append :
      (i : ℕ) (found : Option Z) (xs ys : Supplied Z)
      → last_for i found (xs ++ ys) ≡ last_for i (last_for i found xs) ys
  last_for-append i found [] ys = refl
  last_for-append i found ((j, z) ∷ xs) ys =
      last_for-append i (if j == i then some z else found) xs ys

  not_supplied :
      (i : ℕ) (found : Option Z) (xs : Supplied Z)
      → is_supplied i xs ≡ false
      → last_for i found xs ≡ found
  not_supplied i found [] h = refl
  not_supplied i found ((j, z) ∷ xs) h = elim (Bool-cases (j == i)) [
    | inl e ↦ absurd (cc)
    | inr e ↦ rw e (not_supplied i found xs (ground arith))
  ]

  supplied_found :
      (i : ℕ) (found : Option Z) (xs : Supplied Z)
      → is_supplied i xs ≡ true
      → (z : Z) × (last_for i found xs ≡ some z)
  supplied_found i found [] h = absurd (cc)
  supplied_found i found ((j, z) ∷ xs) h = elim (Bool-cases (j == i)) [
    | inl e ↦ rw e (last_for-found i z xs)
    | inr e ↦ rw e (supplied_found i found xs (ground arith))
  ]

  or_else-none : (o : Option Z) → or_else o none ≡ o
  or_else-none none = refl
  or_else-none (some z) = refl

  overridden :
      (i j : ℕ) (y : Z) (supplied : Supplied Z) (o : Option Z)
      → is_supplied j supplied ≡ true
      → or_else (last_for i none supplied) o
        ≡ or_else (last_for i none supplied) (if j == i then some y else o)
  overridden i j y supplied o e = elim (Bool-cases (j == i)) [
    | inl f ↦
        let (z, found) =
          supplied_found i none supplied
            (subst (λ k. is_supplied k supplied ≡ true) ((==_iff j i).0 f) e) in
        rw (f, found) refl
    | inr f ↦ rw f refl
  ]

  added :
      (i j : ℕ) (y : Z) (supplied : Supplied Z) (o : Option Z)
      → is_supplied j supplied ≡ false
      → or_else (if j == i then some y else last_for i none supplied) o
        ≡ or_else (last_for i none supplied) (if j == i then some y else o)
  added i j y supplied o e = elim (Bool-cases (j == i)) [
    | inl f ↦
        rw
          (
            f,
            not_supplied i none supplied
                (subst (λ k. is_supplied k supplied ≡ false) ((==_iff j i).0 f) e),
          )
          refl
    | inr f ↦ rw f refl
  ]

  -- What is bound in the end is what counts.
  pub last_for-add_deferred :
      (i : ℕ) (deferred supplied : Supplied Z)
      → IsTable deferred
      → last_for i none (add_deferred deferred supplied) ≡ counts i supplied deferred
  last_for-add_deferred i [] supplied h = sym (or_else-none (last_for i none supplied))
  last_for-add_deferred i ((j, y) ∷ deferred) supplied (h, hs) =
      elim (Bool-cases (is_supplied j supplied)) [
        | inl e ↦ rw e (
            last_for-add_deferred i deferred supplied hs
            ∙ overridden i j y supplied (find i deferred) e)
        | inr e ↦ rw e (
            last_for-add_deferred i deferred (supplied ++ (j, y) ∷ []) hs
            ∙ rw (last_for-append i none supplied ((j, y) ∷ []))
                (added i j y supplied (find i deferred) e))
      ]

  abbrev pub held : {V : Type 0} → (Z → V) → Option Z → Option V → Option V
  held value_of none before = before
  held value_of (some z) before = some (value_of z)

  abbrev pub map_values : {V : Type 0} → (Z → V) → Supplied Z → List V
  map_values value_of [] = []
  map_values value_of ((i, z) ∷ xs) = value_of z ∷ map_values value_of xs

unequal : ¬ (false ≡ true)
unequal e = cc

module _ {Z V : Type 0} (e : Engine V) (value_of : Z → V) where
  pub bind_converted-held :
      (i : ℕ) (xs : Supplied Z) (found : Option Z) (native native' base : ℕ → Option V)
      → bind_converted e xs (map_values value_of xs) native ≡ (true, native')
      → native i ≡ held value_of found (base i)
      → native' i ≡ held value_of (last_for i found xs) (base i)
  bind_converted-held i [] found native native' base h n =
      ap (λ (p : Bool × (ℕ → Option V)). p.1 i) (sym h) ∙ n
  bind_converted-held i ((j, z) ∷ xs) found native native' base h n =
      elim (Bool-cases (e.takes j (value_of z))) [
        | inl t ↦
            bind_converted-held i xs (if j == i then some z else found)
              (set_native j (value_of z) native) native' base
              (sym (
                  ap
                    (λ (b : Bool).
                      if b
                      then bind_converted e xs (map_values value_of xs)
                          (set_native j (value_of z) native)
                      else (false, native))
                    t)
                ∙ h)
              (elim (Bool-cases (j == i)) [
                | inl f ↦ let g : (i == j) ≡ true = grind arith in rw (f, g) refl
                | inr f ↦ let g : (i == j) ≡ false = grind arith in rw (f, g) n
              ])
        | inr t ↦ absurd (
            unequal (
              ap (λ (p : Bool × (ℕ → Option V)). p.0)
                (sym (
                    ap
                      (λ (b : Bool).
                        if b
                        then bind_converted e xs (map_values value_of xs)
                            (set_native j (value_of z) native)
                        else (false, native))
                      t)
                  ∙ h)))
      ]
