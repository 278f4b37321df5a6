-- ===== src/TypedValue/Acyclic.antt =====
-- A value that has a snapshot holds no array inside itself, so the check for cycles never refuses it.
use php_duckdb.Prelude.{
  ℕ, suc, ◌+◌, ◌≤◌, ◌<◌, ◌≡◌, ◌↔◌, inl, inr, refl, sym, ap, ◌∙◌, false, List, [], ◌∷◌, some, arith,
  All, ◌==◌, ==_iff, Bool-cases,
}
use mathlib.Core.Path.{subst}
use php_duckdb.Prelude.Int.{ℤ}
use php_duckdb.TypedValue.{
  Content, array, Zval, Elements, Heap, Copy, a_scalar, a_value, an_interval, a_date, an_array,
  Copies, no_copies, a_copy, ok, is_seen, snapshot_elements, snapshot_part, snapshot,
}
use php_duckdb.TypedValue.Snapshots.{
  CopyOf, level, PartOf, scalar_part, value_part, interval_part, date_part, array_part, ElementsOf,
  no_elements, an_element, snapshot-CopyOf,
}

same_time : (t u : ℤ × ℕ) → some t ≡ some u → t ≡ u
same_time t u h = cc

-- A value has one snapshot at most, at whatever level.
mutual
  same_copy : {h : Heap} {l m : ℕ} {z : Zval} {c d : Copy} → CopyOf h l z c → CopyOf h m z d → c ≡ d
  same_copy (level p) (level q) = same_part p q

  same_part :
      {h : Heap} {l m : ℕ} {x : Content} {c d : Copy} → PartOf h l x c → PartOf h m x d → c ≡ d
  same_part scalar_part scalar_part = refl
  same_part (value_part e) (value_part f) = refl
  same_part interval_part interval_part = refl
  same_part (date_part {t = t} e g) (date_part {t = u} f k) = ap a_date (same_time t u (sym e ∙ f))
  same_part (array_part p) (array_part q) = ap an_array (same_elements p q)

  same_elements :
      {h : Heap} {l m : ℕ} {zs : Elements} {cs ds : Copies}
      → ElementsOf h l zs cs
      → ElementsOf h m zs ds
      → cs ≡ ds
  same_elements no_elements no_elements = refl
  same_elements (an_element {k = k} {c = c} {cs = cs} p ps) (an_element {c = d} {cs = ds} q qs) =
      ap (λ x. a_copy k x cs) (same_copy p q) ∙ ap (λ xs. a_copy k d xs) (same_elements ps qs)

-- How many copies there are in a copy, itself among them.
unfoldable mutual
  size : Copy → ℕ
  size (a_scalar n) = 1
  size (a_value i) = 1
  size (an_interval i) = 1
  size (a_date t) = 1
  size (an_array cs) = suc (sizes cs)

  sizes : Copies → ℕ
  sizes no_copies = 0
  sizes (a_copy k c cs) = size c + sizes cs

-- Every snapshot of an array that the value is inside is larger than that of the value.
abbrev IsInside : Heap → List ℕ → ℕ → Type 0
IsInside h seen n = All (λ a. (l : ℕ) (c : Copy) → PartOf h l (array a) c → n < size c) seen

weaken-IsInside :
    (h : Heap) (seen : List ℕ) (m n : ℕ) → m ≤ n → IsInside h seen n → IsInside h seen m
weaken-IsInside h [] m n le i = tt
weaken-IsInside h (a ∷ seen) m n le (i, is) =
    (λ l c p. let x = i l c p in omega arith, weaken-IsInside h seen m n le is)

inside_fresh :
    (h : Heap) (seen : List ℕ) (a l : ℕ) (c : Copy)
    → PartOf h l (array a) c
    → IsInside h seen (size c)
    → is_seen a seen ≡ false
inside_fresh h [] a l c p i = refl
inside_fresh h (b ∷ seen) a l c p (i, is) = elim (Bool-cases (a == b)) [
  | inl e ↦
      let x = i l c (subst (λ k. PartOf h l (array k) c) ((==_iff a b).0 e) p) in
      absurd (omega arith)
  | inr e ↦ rw e (inside_fresh h seen a l c p is)
]

IsInside-array :
    (h : Heap) (seen : List ℕ) (a l : ℕ) (cs : Copies)
    → PartOf h l (array a) (an_array cs)
    → IsInside h seen (suc (sizes cs))
    → IsInside h (a ∷ seen) (sizes cs)
unfolding size
IsInside-array h seen a l cs p i = (
  λ m c q. let e = same_part q p in rw e (omega arith),
  weaken-IsInside h seen (sizes cs) (suc (sizes cs)) (omega arith) i,
)

mutual
  unfolding snapshot size sizes

  snapshot_done :
      {h : Heap} {levels : ℕ} {z : Zval} {c : Copy}
      → CopyOf h levels z c
      → (seen : List ℕ) → IsInside h seen (size c)
      → snapshot h levels seen z ≡ ok c
  snapshot_done (level p) seen i = snapshot_part_done p seen i

  snapshot_part_done :
      {h : Heap} {levels : ℕ} {x : Content} {c : Copy}
      → PartOf h levels x c
      → (seen : List ℕ) → IsInside h seen (size c)
      → snapshot_part h (snapshot h levels) seen x ≡ ok c
  snapshot_part_done scalar_part seen i = refl
  snapshot_part_done (value_part e) seen i = rw e refl
  snapshot_part_done interval_part seen i = refl
  snapshot_part_done (date_part e f) seen i = rw (e, f) refl
  snapshot_part_done {h = h} {levels = levels} (array_part {a = a} {cs = cs} p) seen i =
      rw
        (
          inside_fresh h seen a levels (an_array cs) (array_part p) i,
          snapshot_elements_done p (a ∷ seen) (IsInside-array h seen a levels cs (array_part p) i),
        )
        refl

  snapshot_elements_done :
      {h : Heap} {levels : ℕ} {zs : Elements} {cs : Copies}
      → ElementsOf h levels zs cs
      → (seen : List ℕ) → IsInside h seen (sizes cs)
      → snapshot_elements (snapshot h levels seen) zs ≡ ok cs
  snapshot_elements_done no_elements seen i = refl
  snapshot_elements_done {h = h} (an_element {c = c} {cs = cs} p ps) seen i =
      rw
        (
          snapshot_done p seen
              (weaken-IsInside h seen (size c) (size c + sizes cs) (omega arith) i),
          snapshot_elements_done ps seen
              (weaken-IsInside h seen (sizes cs) (size c + sizes cs) (omega arith) i),
        )
        refl

-- A value, inside no array, has a snapshot exactly when it is a finite tree of at most so many levels of values that
-- can be copied, and the snapshot is the copy of that tree: the check for cycles refuses no other value.
pub snapshot_iff :
    (h : Heap) (levels : ℕ) (z : Zval) (c : Copy)
    → (snapshot h levels [] z ≡ ok c) ↔ CopyOf h levels z c
snapshot_iff h levels z c = (snapshot-CopyOf h levels [] z c, λ p. snapshot_done p [] tt)
