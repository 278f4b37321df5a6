-- ===== src/ErrorClass/Prefixes.antt =====
-- The table is free of prefixes of prefixes, so its order does not matter.
use php_duckdb.Prelude.{
  ℕ, zero, suc, ◌≡◌, inl, inr, refl, sym, ap, ◌∙◌, Bool, true, false, not, ◌&&◌, ◌||◌, List, [],
  ◌∷◌, ◌++◌, some, arith, Bytes, get_elem?, ◌==◌, ==_iff, Bool-cases, has_prefix,
}
use php_duckdb.ErrorClass.{ErrorType, prefixes, search_prefix, classify_error_message}

-- No prefix of the table begins another one.
abbrev apart_from : Bytes → List (Bytes × ErrorType) → Bool
apart_from p [] = true
apart_from p ((q, t) ∷ entries) = not (has_prefix p q || has_prefix q p) && apart_from p entries

abbrev all_apart : List (Bytes × ErrorType) → Bool
all_apart [] = true
all_apart ((p, t) ∷ entries) = apart_from p entries && all_apart entries

both_true : (a b : Bool) → (a && b) ≡ true → (a ≡ true) × (b ≡ true)
both_true true b e = (refl, e)
both_true false b e = cc

neither : (a : Bool) → not a ≡ true → a ≡ false
neither true e = cc
neither false e = refl

clash : (a : Bool) → a ≡ true → a ≡ false → ⊥
clash a e f = cc

-- Two beginnings of one message: one of them begins the other.
both_begin :
    (q p rest : Bytes) → has_prefix q (p ++ rest) ≡ true → (has_prefix q p || has_prefix p q) ≡ true
both_begin [] p rest e = refl
both_begin (c ∷ q) [] rest e = refl
both_begin (c ∷ q) (d ∷ p) rest e =
    let (first, later) = both_true (d == c) (has_prefix q (p ++ rest)) e in
    let back : (c == d) ≡ true = (==_iff c d).1 (sym ((==_iff d c).0 first)) in
    rw (first, back) (both_begin q p rest later)

begins : (p rest : Bytes) → has_prefix p (p ++ rest) ≡ true
begins [] rest = refl
begins (c ∷ p) rest = let same : (c == c) ≡ true = ground arith in rw (same, begins p rest)

some_injective : {x y : Bytes × ErrorType} → some x ≡ some y → x ≡ y
some_injective e = cc

apart-entry :
    (entries : List (Bytes × ErrorType)) (i : ℕ) (q p : Bytes) (t : ErrorType)
    → apart_from q entries ≡ true
    → get_elem? entries i ≡ some (p, t)
    → (has_prefix q p || has_prefix p q) ≡ false
apart-entry [] i q p t a e = cc
apart-entry ((r, u) ∷ entries) zero q p t a e =
    let (here, later) =
      both_true (not (has_prefix q r || has_prefix r q)) (apart_from q entries) a in
    let same : (r, u) ≡ (p, t) = some_injective e in
    sym (ap (λ (x : Bytes × ErrorType). has_prefix q x.0 || has_prefix x.0 q) same)
    ∙ neither (has_prefix q r || has_prefix r q) here
apart-entry ((r, u) ∷ entries) (suc i) q p t a e =
    let (here, later) =
      both_true (not (has_prefix q r || has_prefix r q)) (apart_from q entries) a in
    apart-entry entries i q p t later e

find-entry :
    (entries : List (Bytes × ErrorType)) (i : ℕ) (p : Bytes) (t : ErrorType) (rest : Bytes)
    → all_apart entries ≡ true
    → get_elem? entries i ≡ some (p, t)
    → search_prefix entries (p ++ rest) ≡ t
unfolding search_prefix
find-entry [] i p t rest a e = cc
find-entry ((q, u) ∷ entries) zero p t rest a e =
    let same : (q, u) ≡ (p, t) = some_injective e in
    let here : has_prefix q (p ++ rest) ≡ true =
      ap (λ (x : Bytes × ErrorType). has_prefix x.0 (p ++ rest)) same ∙ begins p rest in
    rw here (ap (λ (x : Bytes × ErrorType). x.1) same)
find-entry ((q, u) ∷ entries) (suc i) p t rest a e =
    let (here, later) = both_true (apart_from q entries) (all_apart entries) a in
    let apart = apart-entry entries i q p t here e in
    elim (Bool-cases (has_prefix q (p ++ rest))) [
      | inl b ↦ elim (clash (has_prefix q p || has_prefix p q) (both_begin q p rest b) apart) [ ]
      | inr f ↦ rw f (find-entry entries i p t rest later e)
    ]

-- A message that begins with an entry of the table has the category of that entry, whatever follows.
pub classify-prefix :
    (i : ℕ) (p : Bytes) (t : ErrorType) (rest : Bytes)
    → get_elem? prefixes i ≡ some (p, t)
    → classify_error_message (some (p ++ rest)) ≡ t
unfolding classify_error_message
classify-prefix i p t rest e = find-entry prefixes i p t rest refl e
