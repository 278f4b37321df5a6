-- ===== src/Statement/Release.antt =====
-- What a failed execution leaves, and the typed values that an operation takes out of the table.
use php_duckdb.Prelude.{
  ℕ, ◌≡◌, ◌⊎◌, inl, inr, refl, ap, ◌∙◌, Bool, true, false, not, ◌&&◌, List, [], ◌∷◌, ◌++◌,
  append_assoc, Option, none, some, arith, ◌==◌, ==_iff, if◌then◌else◌, Bool-cases,
}
use php_duckdb.Statement.{
  Engine, Conversion, Error, not_bound, Result, ok, failed, Params, Supplied, State, find, update,
  delete, keep, defer_supplied, stop, bound, bind_all, bind_supplied, collected, bind_execution,
  Param, After, bind_native, bind_at, guarded, bind_impl, clear_bindings, values_of,
  resolve_param_index,
}
use php_duckdb.Statement.Native.{IsTable}
use php_duckdb.Statement.Given.{next-IsTable, find-next}

module _ {Z V : Type 0} where
  -- The deferred values stay as they are, and all stays unless the engine refused a value.
  abbrev pub Undone : Error → State Z V → State Z V → Type 0
  Undone error s after = (after.deferred ≡ s.deferred) × ((error ≡ not_bound → ⊥) → after ≡ s)

  stop-Undone :
      (e error : Error) (s : State Z V)
      → (stop e s).outcome ≡ some error
      → Undone error s (stop e s).state
  stop-Undone e error s o = (refl, λ n. refl)

  bound-Undone :
      (c : Conversion Z V) (supplied : Supplied Z) (s : State Z V) (done : Bool × (ℕ → Option V))
      (error : Error)
      → (bound c supplied s done).outcome ≡ some error
      → Undone error s (bound c supplied s done).state
  bound-Undone c supplied s (false, native) error o = (refl, λ n. absurd (n (cc)))
  bound-Undone c supplied s (true, native) error o = absurd (cc)

  bind_all-Undone :
      (e : Engine V) (c : Conversion Z V) (supplied : Supplied Z) (s : State Z V)
      (vs : Option (List V)) (error : Error)
      → (bind_all e c supplied s vs).outcome ≡ some error
      → Undone error s (bind_all e c supplied s vs).state
  bind_all-Undone e c supplied s none error o = (refl, λ n. refl)
  bind_all-Undone e c supplied s (some vs) error o = bound-Undone c supplied s _ error o

  bind_supplied-Undone :
      (e : Engine V) (c : Conversion Z V) (s : State Z V) (r : Result (Supplied Z)) (error : Error)
      → (bind_supplied e c s r).outcome ≡ some error
      → Undone error s (bind_supplied e c s r).state
  bind_supplied-Undone e c s (failed f) error o = (refl, λ n. refl)
  bind_supplied-Undone e c s (ok supplied) error o = bind_all-Undone e c supplied s _ error o

  -- An execution that fails to bind its parameters leaves the deferred values as they were; and unless the engine
  -- itself refused a value, so with an unknown name, a wrong index or a value that cannot be converted, it leaves
  -- every native binding too.
  pub bind_execution-Undone :
      (e : Engine V) (c : Conversion Z V) (params : Option (Params Z)) (s : State Z V)
      (error : Error)
      → (bind_execution e c params s).outcome ≡ some error
      → Undone error s (bind_execution e c params s).state
  unfolding bind_execution
  bind_execution-Undone e c params s error o =
      bind_supplied-Undone e c s (collected e params) error o

module _ {Z : Type 0} where
  -- A value in a list.
  abbrev pub Kept : Z → List Z → Type 0
  Kept z xs = (before : List Z) × (after : List Z) × (xs ≡ before ++ (z ∷ after))

  keep-Kept : (z : Z) (o : Option Z) (xs : List Z) → Kept z xs → Kept z (keep o xs)
  keep-Kept z none xs k = k
  keep-Kept z (some y) xs (before, after, e) =
      (before, after ++ (y ∷ []), rw e (append_assoc before (z ∷ after) (y ∷ [])))

  found-Kept : (z : Z) (o : Option Z) (xs : List Z) → o ≡ some z → Kept z (keep o xs)
  found-Kept z o xs e = (xs, [], rw e refl)

  -- An entry of the table is set or deleted.
  next-Kept :
      (b : Bool) (i j : ℕ) (z y : Z) (table : Supplied Z)
      → IsTable table
      → find i table ≡ some z
      → (find i (if b then update j y table else delete j table) ≡ some z)
        ⊎ Kept z (keep (find j table) [])
  next-Kept b i j z y table t f = elim (Bool-cases (j == i)) [
    | inl e ↦ inr (found-Kept z (find j table) [] (ap (λ k. find k table) ((==_iff j i).0 e) ∙ f))
    | inr e ↦ inl (find-next b i j y table t ∙ rw e f)
  ]

  listed-Kept :
      (i : ℕ) (z : Z) (table : Supplied Z) → find i table ≡ some z → Kept z (values_of table)
  listed-Kept i z [] f = cc
  listed-Kept i z ((j, y) ∷ table) f = elim (Bool-cases (j == i)) [
    | inl e ↦
        let same : y ≡ z = ground arith in
        ([], values_of table, ap (λ (x : Z). x ∷ values_of table) same)
    | inr e ↦
        let (before, behind, shape) = listed-Kept i z table (ground arith) in
        (y ∷ before, behind, ap (λ (xs : List Z). y ∷ xs) shape)
  ]

-- The operations that change the table: an execution's binding, `bindValue` and `bindBlob` with what their guards
-- find and what the engine makes of the value, and `clearBindings`.
pub data Operation (Z V : Type 0) : Type 0 where
  executes : Option (Params Z) → Operation Z V
  binds : Option Error → Param → Z → Bool → Bool → Option V → Operation Z V
  clears : Option Error → Operation Z V

module _ {Z V : Type 0} where
  unfoldable pub perform : Engine V → Conversion Z V → Operation Z V → State Z V → After Z V
  perform e c (executes params) s = bind_execution e c params s
  perform e c (binds guard p z as_blob is_text v) s = bind_impl e c guard p z as_blob is_text v s
  perform e c (clears guard) s = clear_bindings guard s

  -- A value is still in the table, or among those that are released later.
  abbrev pub IsKept : ℕ → Z → After Z V → Type 0
  IsKept i z after = (find i after.state.deferred ≡ some z) ⊎ Kept z after.retained

  defer_supplied-Kept :
      (c : Conversion Z V) (i : ℕ) (z : Z) (xs deferred : Supplied Z) (retained : List Z)
      → IsTable deferred
      → (find i deferred ≡ some z) ⊎ Kept z retained
      → (find i (defer_supplied c xs deferred retained).0 ≡ some z)
        ⊎ Kept z (defer_supplied c xs deferred retained).1
  defer_supplied-Kept c i z [] deferred retained t h = h
  defer_supplied-Kept c i z ((j, y) ∷ xs) deferred retained t h =
      defer_supplied-Kept c i z xs
        (if c.contains_typed y then update j y deferred else delete j deferred)
        (keep (find j deferred) retained) (next-IsTable (c.contains_typed y) j y deferred t)
        (still h)
    where
      still :
          (find i deferred ≡ some z) ⊎ Kept z retained
          → (find i (if c.contains_typed y then update j y deferred else delete j deferred)
              ≡ some z)
            ⊎ Kept z (keep (find j deferred) retained)
      still (inr k) = inr (keep-Kept z (find j deferred) retained k)
      still (inl f) = elim (Bool-cases (j == i)) [
        | inl e ↦ inr (
            found-Kept z (find j deferred) retained
              (ap (λ k. find k deferred) ((==_iff j i).0 e) ∙ f))
        | inr e ↦ inl (find-next (c.contains_typed y) i j y deferred t ∙ rw e f)
      ]

  bound-Kept :
      (c : Conversion Z V) (supplied : Supplied Z) (s : State Z V) (done : Bool × (ℕ → Option V))
      (i : ℕ) (z : Z)
      → IsTable s.deferred
      → find i s.deferred ≡ some z
      → (find i (bound c supplied s done).state.deferred ≡ some z)
        ⊎ Kept z (bound c supplied s done).retained
  bound-Kept c supplied s (false, native) i z t f = inl f
  bound-Kept c supplied s (true, native) i z t f =
      defer_supplied-Kept c i z supplied s.deferred [] t (inl f)

  bind_all-Kept :
      (e : Engine V) (c : Conversion Z V) (supplied : Supplied Z) (s : State Z V)
      (vs : Option (List V)) (i : ℕ) (z : Z)
      → IsTable s.deferred
      → find i s.deferred ≡ some z
      → (find i (bind_all e c supplied s vs).state.deferred ≡ some z)
        ⊎ Kept z (bind_all e c supplied s vs).retained
  bind_all-Kept e c supplied s none i z t f = inl f
  bind_all-Kept e c supplied s (some vs) i z t f = bound-Kept c supplied s _ i z t f

  bind_supplied-Kept :
      (e : Engine V) (c : Conversion Z V) (s : State Z V) (r : Result (Supplied Z)) (i : ℕ) (z : Z)
      → IsTable s.deferred
      → find i s.deferred ≡ some z
      → (find i (bind_supplied e c s r).state.deferred ≡ some z)
        ⊎ Kept z (bind_supplied e c s r).retained
  bind_supplied-Kept e c s (failed f) i z t h = inl h
  bind_supplied-Kept e c s (ok supplied) i z t h = bind_all-Kept e c supplied s _ i z t h

  bind_execution-Kept :
      (e : Engine V) (c : Conversion Z V) (params : Option (Params Z)) (s : State Z V) (i : ℕ)
      (z : Z)
      → IsTable s.deferred
      → find i s.deferred ≡ some z
      → IsKept i z (bind_execution e c params s)
  unfolding bind_execution
  bind_execution-Kept e c params s i z t f = bind_supplied-Kept e c s (collected e params) i z t f

  bind_native-Kept :
      (e : Engine V) (j : ℕ) (y : Z) (v : Option V) (s : State Z V) (i : ℕ) (z : Z)
      → IsTable s.deferred
      → find i s.deferred ≡ some z
      → IsKept i z (bind_native e j v s)
  bind_native-Kept e j y none s i z t f = inl f
  bind_native-Kept e j y (some v) s i z t f = elim (Bool-cases (e.takes j v)) [
    | inl h ↦ rw h (next-Kept false i j z y s.deferred t f)
    | inr h ↦ rw h (inl f)
  ]

  bind_at-Kept :
      (e : Engine V) (c : Conversion Z V) (y : Z) (as_blob : Bool) (v : Option V) (s : State Z V)
      (r : Result ℕ) (i : ℕ) (z : Z)
      → IsTable s.deferred
      → find i s.deferred ≡ some z
      → IsKept i z (bind_at e c y as_blob v s r)
  bind_at-Kept e c y as_blob v s (failed error) i z t f = inl f
  bind_at-Kept e c y as_blob v s (ok j) i z t f =
      elim (Bool-cases (not as_blob && c.contains_typed y)) [
        | inl h ↦ rw h (next-Kept true i j z y s.deferred t f)
        | inr h ↦ rw h (bind_native-Kept e j y v s i z t f)
      ]

  guarded-Kept :
      (e : Engine V) (c : Conversion Z V) (p : Param) (y : Z) (as_blob : Bool) (v : Option V)
      (s : State Z V) (guard : Option Error) (i : ℕ) (z : Z)
      → IsTable s.deferred
      → find i s.deferred ≡ some z
      → IsKept i z (guarded e c p y as_blob v s guard)
  guarded-Kept e c p y as_blob v s (some error) i z t f = inl f
  guarded-Kept e c p y as_blob v s none i z t f =
      bind_at-Kept e c y as_blob v s (resolve_param_index e p) i z t f

  bind_impl-Kept :
      (e : Engine V) (c : Conversion Z V) (guard : Option Error) (p : Param) (y : Z)
      (as_blob is_text : Bool) (v : Option V) (s : State Z V) (i : ℕ) (z : Z)
      → IsTable s.deferred
      → find i s.deferred ≡ some z
      → IsKept i z (bind_impl e c guard p y as_blob is_text v s)
  unfolding bind_impl
  bind_impl-Kept e c guard p y as_blob is_text v s i z t f =
      elim (Bool-cases (as_blob && not is_text)) [
        | inl h ↦ rw h (inl f)
        | inr h ↦ rw h (guarded-Kept e c p y as_blob v s guard i z t f)
      ]

  clear_bindings-Kept :
      (guard : Option Error) (s : State Z V) (i : ℕ) (z : Z)
      → find i s.deferred ≡ some z
      → IsKept i z (clear_bindings guard s)
  unfolding clear_bindings
  clear_bindings-Kept (some error) s i z f = inl f
  clear_bindings-Kept none s i z f = inr (listed-Kept i z s.deferred f)

  -- A typed value that any operation on a statement finds in its table, an execution, `bindValue`, `bindBlob` or
  -- `clearBindings`, with whatever outcome, is there afterwards, or is among the values that are kept until the
  -- lock of the connection is released.
  pub perform-Kept :
      (e : Engine V) (c : Conversion Z V) (operation : Operation Z V) (s : State Z V) (i : ℕ)
      (z : Z)
      → IsTable s.deferred
      → find i s.deferred ≡ some z
      → IsKept i z (perform e c operation s)
  unfolding perform
  perform-Kept e c (executes params) s i z t f = bind_execution-Kept e c params s i z t f
  perform-Kept e c (binds guard p y as_blob is_text v) s i z t f =
      bind_impl-Kept e c guard p y as_blob is_text v s i z t f
  perform-Kept e c (clears guard) s i z t f = clear_bindings-Kept guard s i z f
