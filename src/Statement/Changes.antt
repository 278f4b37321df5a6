-- ===== src/Statement/Changes.antt =====
-- What the operations on the bindings of a statement change, and what they leave when they fail.
use php_duckdb.Prelude.{
  ℕ, ◌≡◌, inl, inr, refl, sym, ◌∙◌, Bool, true, false, not, ◌&&◌, Option, none, some, arith, ◌==◌,
  if◌then◌else◌, Bool-cases,
}
use php_duckdb.Statement.{
  Engine, Conversion, Error, not_bound, not_text, Result, ok, failed, Param, resolve_param_index,
  State, set_native, find, update, delete, after_bind, bind_native, bind_at, guarded, bind_impl,
}
use php_duckdb.Statement.Native.{find-update, find-delete, update-IsTable, delete-IsTable}
use php_duckdb.Statement.Given.{Given, unset, fixed, typed, Matches, Represents}

module _ {Z V : Type 0} where
  abbrev pub set_given : ℕ → Given Z V → (ℕ → Given Z V) → ℕ → Given Z V
  set_given i x g j = if i == j then x else g j

  abbrev pub native_given : Option V → Given Z V
  native_given none = unset
  native_given (some v) = fixed v

  abbrev pub as_given : Conversion Z V → Z → Bool → Option V → Given Z V
  as_given c z as_blob v = if not as_blob && c.contains_typed z then typed z else native_given v

  bound_at :
      (i j : ℕ) (v : V) (s : State Z V) (g : ℕ → Given Z V)
      → Represents s g
      → Matches
          (set_given i (fixed v) g j)
          (find j (delete i s.deferred))
          (set_native i v s.native j)
  bound_at i j v s g (t, m) = elim (Bool-cases (i == j)) [
    | inl f ↦
        let f' : (j == i) ≡ true = grind arith in
        rw (f, f') (find-delete j i s.deferred t ∙ rw f refl, refl)
    | inr f ↦
        let f' : (j == i) ≡ false = grind arith in
        let kept : find j (delete i s.deferred) ≡ find j s.deferred =
          find-delete j i s.deferred t ∙ rw f refl in
        rw (f, f', kept) (m j)
  ]

  after_bind-Represents :
      (e : Engine V) (i : ℕ) (v : V) (s : State Z V) (g : ℕ → Given Z V)
      → Represents s g
      → (after_bind e i v s).outcome ≡ none
      → Represents (after_bind e i v s).state (set_given i (fixed v) g)
  after_bind-Represents e i v s g (t, m) o = elim (Bool-cases (e.takes i v)) [
    | inl f ↦ rw f (delete-IsTable i s.deferred t, λ j. bound_at i j v s g (t, m))
    | inr f ↦ let x : (after_bind e i v s).outcome ≡ some not_bound = rw f refl in absurd (cc)
  ]

  deferred_at :
      (i j : ℕ) (z : Z) (s : State Z V) (g : ℕ → Given Z V)
      → Represents s g
      → Matches (set_given i (typed z) g j) (find j (update i z s.deferred)) (s.native j)
  deferred_at i j z s g (t, m) = elim (Bool-cases (i == j)) [
    | inl f ↦ rw f (find-update j i z s.deferred ∙ rw f refl)
    | inr f ↦
        let kept : find j (update i z s.deferred) ≡ find j s.deferred =
          find-update j i z s.deferred ∙ rw f refl in
        rw (f, kept) (m j)
  ]

  bind_native-Represents :
      (e : Engine V) (i : ℕ) (v : Option V) (s : State Z V) (g : ℕ → Given Z V)
      → Represents s g
      → (bind_native e i v s).outcome ≡ none
      → Represents (bind_native e i v s).state (set_given i (native_given v) g)
  bind_native-Represents e i none s g r o = absurd (cc)
  bind_native-Represents e i (some v) s g r o = after_bind-Represents e i v s g r o

  bind_at-Represents :
      (e : Engine V) (c : Conversion Z V) (z : Z) (as_blob : Bool) (v : Option V) (s : State Z V)
      (g : ℕ → Given Z V) (r : Result ℕ)
      → Represents s g
      → (bind_at e c z as_blob v s r).outcome ≡ none
      → (i : ℕ) × (r ≡ ok i)
        × Represents (bind_at e c z as_blob v s r).state (set_given i (as_given c z as_blob v) g)
  bind_at-Represents e c z as_blob v s g (failed error) (t, m) o = absurd (cc)
  bind_at-Represents e c z as_blob v s g (ok i) (t, m) o =
      elim (Bool-cases (not as_blob && c.contains_typed z)) [
        | inl f ↦
            (i, refl, rw f (update-IsTable i z s.deferred t, λ j. deferred_at i j z s g (t, m)))
        | inr f ↦
            let o' : (bind_native e i v s).outcome ≡ none = sym (rw f refl) ∙ o in
            (i, refl, rw f (bind_native-Represents e i v s g (t, m) o'))
      ]

  guarded-Represents :
      (e : Engine V) (c : Conversion Z V) (guard : Option Error) (p : Param) (z : Z)
      (as_blob : Bool) (v : Option V) (s : State Z V) (g : ℕ → Given Z V)
      → Represents s g
      → (guarded e c p z as_blob v s guard).outcome ≡ none
      → (i : ℕ) × (resolve_param_index e p ≡ ok i)
        × Represents
            (guarded e c p z as_blob v s guard).state
            (set_given i (as_given c z as_blob v) g)
  guarded-Represents e c (some error) p z as_blob v s g r o = absurd (cc)
  guarded-Represents e c none p z as_blob v s g r o =
      bind_at-Represents e c z as_blob v s g (resolve_param_index e p) r o

  -- A value that is bound counts as given for the index of its parameter alone: a typed one as such, unless it is bound
  -- as a blob, another one as the native value that was made of it.
  pub bind_impl-Represents :
      (e : Engine V) (c : Conversion Z V) (guard : Option Error) (p : Param) (z : Z)
      (as_blob is_text : Bool) (v : Option V) (s : State Z V) (g : ℕ → Given Z V)
      → Represents s g
      → (bind_impl e c guard p z as_blob is_text v s).outcome ≡ none
      → (i : ℕ) × (resolve_param_index e p ≡ ok i)
        × Represents
            (bind_impl e c guard p z as_blob is_text v s).state
            (set_given i (as_given c z as_blob v) g)
  unfolding bind_impl
  bind_impl-Represents e c guard p z as_blob is_text v s g r o =
      elim (Bool-cases (as_blob && not is_text)) [
        | inl f ↦
            let x : (bind_impl e c guard p z as_blob is_text v s).outcome ≡ some not_text =
              rw f refl in
            absurd (cc)
        | inr f ↦
            let o' : (guarded e c p z as_blob v s guard).outcome ≡ none = sym (rw f refl) ∙ o in
            rw f (guarded-Represents e c guard p z as_blob v s g r o')
      ]
