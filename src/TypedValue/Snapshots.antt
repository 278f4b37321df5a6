-- ===== src/TypedValue/Snapshots.antt =====
-- The values that have a snapshot, and what it is.
use mathlib.Core.Path.{subst}
use php_duckdb.Prelude.{
  ℕ, zero, suc, ◌≡◌, refl, Bool, true, false, List, [], ◌∷◌, Option, none, some, if◌then◌else◌,
}
use php_duckdb.Prelude.Int.{ℤ}
use php_duckdb.TypedValue.{
  Key, Content, scalar, array, value_object, interval, date, other_object, resource, Zval, Elements,
  Heap, Copy, a_scalar, a_value, an_interval, a_date, an_array, Copies, no_copies, a_copy, Error,
  cyclic, date_refused, uninitialized_value, Result, ok, failed, bind, deref, is_seen, date_copy,
  snapshot_elements, snapshot_part, snapshot,
}

-- A value of at most so many levels, and its snapshot: arrays with the snapshots of their elements in order, and at
-- the leaves plain values, initialized typed values and dates, and intervals.
mutual
  pub data CopyOf (h : Heap) : ℕ → Zval → Copy → Type 0 where
    level :
        {levels : ℕ} {z : Zval} {c : Copy}
        → PartOf h levels (deref h z) c
        → CopyOf h (suc levels) z c

  pub data PartOf (h : Heap) : ℕ → Content → Copy → Type 0 where
    scalar_part : {levels n : ℕ} → PartOf h levels (scalar n) (a_scalar n)
    value_part :
        {levels i : ℕ} → h.is_initialized i ≡ true → PartOf h levels (value_object i) (a_value i)
    interval_part : {levels i : ℕ} → PartOf h levels (interval i) (an_interval (h.interval_of i))
    date_part :
        {levels i : ℕ} {t : ℤ × ℕ}
        → h.time_of i ≡ some t
        → h.date_made t ≡ true
        → PartOf h levels (date i) (a_date t)
    array_part :
        {levels a : ℕ} {cs : Copies}
        → ElementsOf h levels (h.elements a) cs
        → PartOf h levels (array a) (an_array cs)

  pub data ElementsOf (h : Heap) : ℕ → Elements → Copies → Type 0 where
    no_elements : {levels : ℕ} → ElementsOf h levels [] no_copies
    an_element :
        {levels : ℕ} {k : Key} {z : Zval} {c : Copy} {zs : Elements} {cs : Copies}
        → CopyOf h levels z c
        → ElementsOf h levels zs cs
        → ElementsOf h levels ((k, z) ∷ zs) (a_copy k c cs)

pub bind_ok :
    {A B : Type 0} (r : Result A) (f : A → Result B) (b : B)
    → bind r f ≡ ok b
    → (a : A) × (r ≡ ok a) × (f a ≡ ok b)
bind_ok (ok a) f b h = (a, refl, h)
bind_ok (failed e) f b h = absurd (cc)

pub ok_same : {A : Type 0} (a b : A) → ok a ≡ ok b → a ≡ b
ok_same a b h = cc

if_ok :
    {A : Type 0} (b : Bool) (r : Result A) (e : Error) (a : A)
    → (if b then r else failed e) ≡ ok a
    → (b ≡ true) × (r ≡ ok a)
if_ok true r e a h = (refl, h)
if_ok false r e a h = absurd (cc)

if_failed :
    {A : Type 0} (b : Bool) (r : Result A) (e : Error) (a : A)
    → (if b then failed e else r) ≡ ok a
    → (b ≡ false) × (r ≡ ok a)
if_failed false r e a h = (refl, h)
if_failed true r e a h = absurd (cc)

elements_sound :
    (h : Heap) (levels : ℕ) (inner : Zval → Result Copy) (zs : Elements) (cs : Copies)
    → ((z : Zval) (c : Copy) → inner z ≡ ok c → CopyOf h levels z c)
    → snapshot_elements inner zs ≡ ok cs
    → ElementsOf h levels zs cs
elements_sound h levels inner [] cs ih e =
    subst (ElementsOf h levels []) (ok_same no_copies cs e) no_elements
elements_sound h levels inner ((k, z) ∷ zs) cs ih e =
    let (c, e1, e2) = bind_ok (inner z) _ cs e in
    let (cs', e3, e4) = bind_ok (snapshot_elements inner zs) _ cs e2 in
    subst (ElementsOf h levels ((k, z) ∷ zs)) (ok_same (a_copy k c cs') cs e4)
      (an_element (ih z c e1) (elements_sound h levels inner zs cs' ih e3))

date_sound :
    (h : Heap) (levels i : ℕ) (o : Option (ℤ × ℕ)) (c : Copy)
    → h.time_of i ≡ o
    → date_copy h o ≡ ok c
    → PartOf h levels (date i) c
date_sound h levels i none c t e = absurd (cc)
date_sound h levels i (some t) c e f =
    let (made, same) = if_ok (h.date_made t) (ok (a_date t)) date_refused c f in
    subst (PartOf h levels (date i)) (ok_same (a_date t) c same) (date_part e made)

part_sound :
    (h : Heap) (levels : ℕ) (inner : List ℕ → Zval → Result Copy) (seen : List ℕ) (x : Content)
    (c : Copy)
    → ((seen' : List ℕ) (z : Zval) (c' : Copy) → inner seen' z ≡ ok c' → CopyOf h levels z c')
    → snapshot_part h inner seen x ≡ ok c
    → PartOf h levels x c
part_sound h levels inner seen (scalar n) c ih e =
    subst (PartOf h levels (scalar n)) (ok_same (a_scalar n) c e) scalar_part
part_sound h levels inner seen (array a) c ih e =
    let (fresh, e1) = if_failed (is_seen a seen) _ cyclic c e in
    let (cs, e2, e3) = bind_ok (snapshot_elements (inner (a ∷ seen)) (h.elements a)) _ c e1 in
    subst (PartOf h levels (array a)) (ok_same (an_array cs) c e3)
      (array_part (elements_sound h levels (inner (a ∷ seen)) (h.elements a) cs (ih (a ∷ seen)) e2))
part_sound h levels inner seen (value_object i) c ih e =
    let (initialized, e1) = if_ok (h.is_initialized i) (ok (a_value i)) uninitialized_value c e in
    subst (PartOf h levels (value_object i)) (ok_same (a_value i) c e1) (value_part initialized)
part_sound h levels inner seen (interval i) c ih e =
    subst (PartOf h levels (interval i)) (ok_same (an_interval (h.interval_of i)) c e) interval_part
part_sound h levels inner seen (date i) c ih e = date_sound h levels i (h.time_of i) c refl e
part_sound h levels inner seen other_object c ih e = absurd (cc)
part_sound h levels inner seen resource c ih e = absurd (cc)

-- A snapshot that succeeds, inside any arrays, is the one of its value.
pub snapshot-CopyOf :
    (h : Heap) (levels : ℕ) (seen : List ℕ) (z : Zval) (c : Copy)
    → snapshot h levels seen z ≡ ok c
    → CopyOf h levels z c
unfolding snapshot
snapshot-CopyOf h zero seen z c e = absurd (cc)
snapshot-CopyOf h (suc levels) seen z c e =
    level (part_sound h levels (snapshot h levels) seen (deref h z) c (snapshot-CopyOf h levels) e)
