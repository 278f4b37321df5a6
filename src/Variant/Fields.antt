-- ===== src/Variant/Fields.antt =====
-- The fields of an object: the last value of each key, in the order of the keys.
use php_duckdb.Prelude.{
  ◌≡◌, inl, inr, refl, ap, ◌∙◌, Bool, true, false, [], ◌∷◌, Option, none, some, arith, Bytes,
  if◌then◌else◌, Bool-cases, bytes_eq,
}
use php_duckdb.Variant.Render.{Fields, put, insert, sort, bytes_ltb}

-- The text under a key.
abbrev pub lookup : Bytes → Fields → Option Bytes
lookup k [] = none
lookup k ((key, t) ∷ fields) = if bytes_eq key k then some t else lookup k fields

-- The last text under a key, where one has been found before.
abbrev pub last_of : Bytes → Option Bytes → Fields → Option Bytes
last_of k found [] = found
last_of k found ((key, t) ∷ fields) = last_of k (if bytes_eq key k then some t else found) fields

abbrev pub Before : Bytes → Fields → Type 0
Before key [] = Unit
Before key ((k, t) ∷ fields) = bytes_ltb key k ≡ true

-- Each key is less than the next one.
abbrev pub IsSorted : Fields → Type 0
IsSorted [] = Unit
IsSorted ((k, t) ∷ fields) = Before k fields × IsSorted fields

-- The fields in the order of their keys, each with its last text.
abbrev pub Canonical : Fields → Fields → Type 0
Canonical fields sorted = IsSorted sorted × ((k : Bytes) → lookup k sorted ≡ last_of k none fields)

abbrev IsDistinct : Fields → Type 0
IsDistinct [] = Unit
IsDistinct ((k, t) ∷ fields) = (lookup k fields ≡ none) × IsDistinct fields

bytes_eq_sym : (s t : Bytes) → bytes_eq s t ≡ bytes_eq t s
bytes_eq_sym [] [] = refl
bytes_eq_sym [] (d ∷ t) = refl
bytes_eq_sym (c ∷ s) [] = refl
bytes_eq_sym (c ∷ s) (d ∷ t) = let e = bytes_eq_sym s t in ground arith

bytes_total : (s t : Bytes) → bytes_ltb s t ≡ false → bytes_eq s t ≡ false → bytes_ltb t s ≡ true
bytes_total [] [] h e = absurd (cc)
bytes_total [] (d ∷ t) h e = absurd (cc)
bytes_total (c ∷ s) [] h e = refl
bytes_total (c ∷ s) (d ∷ t) h e = let rest = bytes_total s t in ground arith

same_key : (a b k : Bytes) → bytes_eq a b ≡ true → bytes_eq a k ≡ bytes_eq b k
same_key [] [] k e = refl
same_key [] (d ∷ b) k e = absurd (cc)
same_key (c ∷ a) [] k e = absurd (cc)
same_key (c ∷ a) (d ∷ b) [] e = refl
same_key (c ∷ a) (d ∷ b) (x ∷ k) e = let rest = same_key a b k in ground arith

-- What is less than a string differs from it.
below_other : (a b : Bytes) → bytes_ltb a b ≡ true → bytes_eq a b ≡ false
below_other [] [] h = absurd (cc)
below_other [] (d ∷ b) h = refl
below_other (c ∷ a) [] h = absurd (cc)
below_other (c ∷ a) (d ∷ b) h = let rest = below_other a b in ground arith

other_key : (a b k : Bytes) → bytes_eq a b ≡ false → bytes_eq a k ≡ true → bytes_eq b k ≡ false
other_key a b k h e = elim (Bool-cases (bytes_eq b k)) [
  | inl f ↦
      let g = same_key b k a f in
      let x = bytes_eq_sym b a in let y = bytes_eq_sym k a in absurd (cc)
  | inr f ↦ f
]

lookup-put :
    (k key text : Bytes) (fields : Fields)
    → lookup k (put key text fields) ≡ (if bytes_eq key k then some text else lookup k fields)
lookup-put k key text [] = refl
lookup-put k key text ((j, t) ∷ fields) = elim (Bool-cases (bytes_eq j key)) [
  | inl e ↦
      let s = same_key j key k e in
      elim (Bool-cases (bytes_eq key k)) [
        | inl f ↦ rw (e, s ∙ f, f) refl
        | inr f ↦ rw (e, s ∙ f, f) refl
      ]
  | inr e ↦
      rw (e, lookup-put k key text fields)
        (elim (Bool-cases (bytes_eq j k)) [
          | inl f ↦ rw (f, other_key j key k e f) refl
          | inr f ↦ rw f refl
        ])
]

lookup-insert :
    (k key text : Bytes) (fields : Fields)
    → lookup k (insert key text fields) ≡ (if bytes_eq key k then some text else lookup k fields)
lookup-insert k key text [] = refl
lookup-insert k key text ((j, t) ∷ fields) = elim (Bool-cases (bytes_ltb j key)) [
  | inl e ↦
      rw (e, lookup-insert k key text fields)
        (elim (Bool-cases (bytes_eq j k)) [
          | inl f ↦ rw (f, other_key j key k (below_other j key e) f) refl
          | inr f ↦ rw f refl
        ])
  | inr e ↦ rw e refl
]

lookup-sort : (k : Bytes) (fields : Fields) → lookup k (sort fields) ≡ lookup k fields
lookup-sort k [] = refl
lookup-sort k ((key, t) ∷ fields) =
    lookup-insert k key t (sort fields) ∙ rw (lookup-sort k fields) refl

put-IsDistinct :
    (key text : Bytes) (fields : Fields) → IsDistinct fields → IsDistinct (put key text fields)
put-IsDistinct key text [] h = (refl, tt)
put-IsDistinct key text ((j, t) ∷ fields) (h, hs) = elim (Bool-cases (bytes_eq j key)) [
  | inl e ↦ rw e (h, hs)
  | inr e ↦ rw e (
    lookup-put j key text fields ∙ rw (bytes_eq_sym key j ∙ e, h) refl,
    put-IsDistinct key text fields hs,
  )
]

insert-Before :
    (j key text : Bytes) (fields : Fields)
    → bytes_ltb j key ≡ true
    → Before j fields
    → Before j (insert key text fields)
insert-Before j key text [] h b = h
insert-Before j key text ((i, t) ∷ fields) h b = elim (Bool-cases (bytes_ltb i key)) [
  | inl e ↦ rw e b
  | inr e ↦ rw e h
]

if_none :
    (b : Bool) (t : Bytes) (o : Option Bytes)
    → (if b then some t else o) ≡ none
    → (b ≡ false) × (o ≡ none)
if_none true t o h = absurd (cc)
if_none false t o h = (refl, h)

insert-IsSorted :
    (key text : Bytes) (fields : Fields)
    → lookup key fields ≡ none
    → IsSorted fields
    → IsSorted (insert key text fields)
insert-IsSorted key text [] h s = (tt, tt)
insert-IsSorted key text ((j, t) ∷ fields) h (b, s) =
    let other = if_none (bytes_eq j key) t (lookup key fields) h in
    elim (Bool-cases (bytes_ltb j key)) [
      | inl e ↦
          rw e (insert-Before j key text fields e b, insert-IsSorted key text fields other.1 s)
      | inr e ↦ rw e (bytes_total j key e other.0, (b, s))
    ]

sort-IsSorted : (fields : Fields) → IsDistinct fields → IsSorted (sort fields)
sort-IsSorted [] h = tt
sort-IsSorted ((k, t) ∷ fields) (h, hs) =
    insert-IsSorted k t (sort fields) (lookup-sort k fields ∙ h) (sort-IsSorted fields hs)

-- All the fields put in their order.
abbrev pub put_all : Fields → Fields → Fields
put_all [] fields = fields
put_all ((k, t) ∷ more) fields = put_all more (put k t fields)

put_all-IsDistinct : (more fields : Fields) → IsDistinct fields → IsDistinct (put_all more fields)
put_all-IsDistinct [] fields h = h
put_all-IsDistinct ((k, t) ∷ more) fields h =
    put_all-IsDistinct more (put k t fields) (put-IsDistinct k t fields h)

lookup-put_all :
    (k : Bytes) (more fields : Fields)
    → lookup k (put_all more fields) ≡ last_of k (lookup k fields) more
lookup-put_all k [] fields = refl
lookup-put_all k ((key, t) ∷ more) fields =
    lookup-put_all k more (put key t fields)
    ∙ ap (λ o. last_of k o more) (lookup-put k key t fields)

-- The fields put in their order and sorted are those of an object: in the order of their keys, each key once, with the last text given to it.
pub put_all-Canonical : (fields : Fields) → Canonical fields (sort (put_all fields []))
put_all-Canonical fields = (
  sort-IsSorted (put_all fields []) (put_all-IsDistinct fields [] tt),
  λ k. lookup-sort k (put_all fields []) ∙ lookup-put_all k fields [],
)
