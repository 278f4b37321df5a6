-- ===== src/Session/Queue.antt =====
-- Membership in the queue of a session, and its distinctness.
use php_duckdb.Prelude.{
  ℕ, ◌≡◌, inl, inr, refl, sym, ap, ◌∙◌, Bool, true, false, ◌||◌, List, [], ◌∷◌, ◌++◌, arith, ◌==◌,
  ==_iff, Bool-cases,
}
use mathlib.Core.Path.{subst}
use php_duckdb.Session.{Request, update}

abbrev pub elem : ℕ → List ℕ → Bool
elem r [] = false
elem r (x ∷ xs) = r == x || elem r xs

abbrev pub Distinct : List ℕ → Type 0
Distinct [] = Unit
Distinct (x ∷ xs) = (elem x xs ≡ false) × Distinct xs

pub elem-append : (r : ℕ) (xs ys : List ℕ) → elem r (xs ++ ys) ≡ (elem r xs || elem r ys)
elem-append r [] ys = refl
elem-append r (x ∷ xs) ys = elim (Bool-cases (r == x)) [
  | inl t ↦ rw t
  | inr f ↦ rw f (elem-append r xs ys)
]

-- A new entry at the end is found, and so is what was there.
pub elem-snoc-other :
    (k r : ℕ) (xs : List ℕ) → (k == r) ≡ false → elem k (xs ++ (r ∷ [])) ≡ elem k xs
elem-snoc-other k r [] f = rw f
elem-snoc-other k r (x ∷ xs) f = ap (λ (b : Bool). k == x || b) (elem-snoc-other k r xs f)

pub same_number : (r : ℕ) → (r == r) ≡ true
same_number r = ground arith

pub elem-snoc-same : (r : ℕ) (xs : List ℕ) → elem r (xs ++ (r ∷ [])) ≡ true
elem-snoc-same r [] = rw (same_number r)
elem-snoc-same r (x ∷ xs) = elim (Bool-cases (r == x)) [
  | inl t ↦ rw t
  | inr f ↦ rw f (elem-snoc-same r xs)
]

apart : (r x : ℕ) (xs : List ℕ) → elem r (x ∷ xs) ≡ false → (x == r) ≡ false
apart r x xs f = ground arith

apart_rest : (r x : ℕ) (xs : List ℕ) → elem r (x ∷ xs) ≡ false → elem r xs ≡ false
apart_rest r x xs f = ground arith

pub Distinct-snoc :
    (r : ℕ) (xs : List ℕ) → elem r xs ≡ false → Distinct xs → Distinct (xs ++ (r ∷ []))
Distinct-snoc r [] f d = (refl, tt)
Distinct-snoc r (x ∷ xs) f (new, d) =
    (elem-snoc-other x r xs (apart r x xs f) ∙ new, Distinct-snoc r xs (apart_rest r x xs f) d)

pub update-same :
    (requests : ℕ → Request) (r : ℕ) (request : Request) → update requests r request r ≡ request
update-same requests r request = rw (same_number r)

-- A property of every request survives a change of one of them.
pub update-each {ℓ} :
    (P : ℕ → Request → Type ℓ) (requests : ℕ → Request) (r : ℕ) (request : Request)
    → P r request
    → ((k : ℕ) → (k == r) ≡ false → P k (requests k))
    → (k : ℕ) → P k (update requests r request k)
update-each P requests r request changed others k = elim (Bool-cases (k == r)) [
  | inl t ↦
      let same : k ≡ r = (==_iff k r).0 t in
      subst (λ n. P n (update requests r request n)) (sym same)
        (subst (P r) (sym (update-same requests r request)) changed)
  | inr f ↦ subst (P k) (sym (rw f)) (others k f)
]
