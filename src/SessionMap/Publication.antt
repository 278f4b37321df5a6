-- ===== src/SessionMap/Publication.antt =====
-- Who is found under a connection id.
use php_duckdb.Prelude.{
  ℕ, ◌≡◌, inl, inr, refl, ap, ◌∙◌, Bool, true, false, ◌&&◌, [], ◌∷◌, Option, none, some, arith,
  ◌==◌, ==_iff, if◌then◌else◌, Bool-cases,
}
use php_duckdb.SessionMap.{
  Sessions, lookup, erase, lock, is_session, publish, unpublish, session_find,
}

same_id : (id : ℕ) → (id == id) ≡ true
same_id id = ground arith

if_same {ℓ} : {A : Type ℓ} (b : Bool) (a : A) → a ≡ (if b then a else a)
if_same true a = refl
if_same false a = refl

erase-here :
    (id k session : ℕ) (m : Sessions) → (k == id) ≡ true → erase id ((k, session) ∷ m) ≡ erase id m
erase-here id k session m t = rw t

erase-there :
    (id k session : ℕ) (m : Sessions)
    → (k == id) ≡ false
    → erase id ((k, session) ∷ m) ≡ (k, session) ∷ erase id m
erase-there id k session m f = rw f

-- Erasing an id hides it alone.
lookup-erase :
    (id other : ℕ) (m : Sessions)
    → lookup other (erase id m) ≡ (if id == other then none else lookup other m)
lookup-erase id other [] = if_same (id == other) none
lookup-erase id other ((k, session) ∷ m) =
    let rest = lookup-erase id other m in
    elim (Bool-cases (k == id)) [
      | inl t ↦
          let same : k ≡ id = (==_iff k id).0 t in
          ap (lookup other) (erase-here id k session m t) ∙ rest ∙ elim (Bool-cases (id == other)) [
            | inl u ↦ rw u refl
            | inr u ↦ let v = ap (λ (j : ℕ). j == other) same ∙ u in rw (u, v) refl
          ]
      | inr f ↦ ap (lookup other) (erase-there id k session m f) ∙ elim (Bool-cases (k == other)) [
        | inl u ↦ let apart : (id == other) ≡ false = ground (arith, f, u) in rw (u, apart) refl
        | inr u ↦ rw u rest
      ]
    ]

lock-is_session :
    (alive : ℕ → Bool) (session : ℕ) (found : Option ℕ)
    → is_session session (lock alive found) ≡ true
    → lock alive found ≡ some session
lock-is_session alive session found e = same (lock alive found) e
  where
    same : (held : Option ℕ) → is_session session held ≡ true → held ≡ some session
    same none e = cc
    same (some other) e = ap some ((==_iff other session).0 e)

-- A session that is published is found under its id while it is alive, and under every other id the
-- one that was found before.
publish-found :
    (alive : ℕ → Bool) (id session other : ℕ) (m : Sessions)
    → alive session ≡ true
    → session_find alive other (publish id session m)
      ≡ (if id == other then some session else session_find alive other m)
unfolding session_find publish
publish-found alive id session other m living = elim (Bool-cases (id == other)) [
  | inl t ↦ rw (t, living) refl
  | inr f ↦
      let kept : lookup other (erase id m) ≡ lookup other m = lookup-erase id other m ∙ rw f in
      rw (f, kept) refl
]

-- When a session stops being published, its id has no session if it was the one found there, and keeps
-- the one that is found there otherwise; every other id keeps its session.
pub unpublish-found :
    (alive : ℕ → Bool) (id session other : ℕ) (m : Sessions)
    → session_find alive other (unpublish alive id session m) ≡ (
        if id == other && is_session session (session_find alive id m)
        then none
        else session_find alive other m)
unfolding session_find unpublish
unpublish-found alive id session other m =
    elim (Bool-cases (is_session session (lock alive (lookup id m)))) [
      | inr f ↦ elim (Bool-cases (id == other)) [ inl u ↦ rw (f, u) refl | inr u ↦ rw (f, u) refl ]
      | inl t ↦ elim (Bool-cases (id == other)) [
        | inl u ↦
            let gone : lookup other (erase id m) ≡ none = lookup-erase id other m ∙ rw u in
            rw (t, u, gone) refl
        | inr u ↦
            let kept : lookup other (erase id m) ≡ lookup other m =
              lookup-erase id other m ∙ rw u in
            rw (t, u, kept) refl
      ]
    ]
