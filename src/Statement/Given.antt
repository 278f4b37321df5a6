-- ===== src/Statement/Given.antt =====
-- What a statement has been given for each index, and that its executions use it.
use php_duckdb.Prelude.{
  ℕ, ◌≡◌, inl, inr, refl, sym, ap, ◌∙◌, Bool, true, false, List, [], ◌∷◌, Option, none, some, ◌==◌,
  if◌then◌else◌, Bool-cases,
}
use php_duckdb.Statement.{
  Engine, Conversion, Result, ok, failed, Params, Supplied, State, After, find, update, delete,
  add_deferred, values_of, keep, bind_converted, defer_supplied, bound, bind_all, bind_supplied,
  collected, bind_execution,
}
use php_duckdb.Statement.Native.{
  last_for, or_else, IsTable, find-update, find-delete, update-IsTable, delete-IsTable,
  last_for-add_deferred, held, map_values, bind_converted-held,
}

-- What is given for an index: nothing, a native value that stays, or a typed one that each execution converts.
pub data Given (Z V : Type 0) : Type 0 where
  unset : Given Z V
  fixed : V → Given Z V
  typed : Z → Given Z V

module _ {Z : Type 0} where
  pub next-IsTable :
      (b : Bool) (j : ℕ) (z : Z) (table : Supplied Z)
      → IsTable table
      → IsTable (if b then update j z table else delete j table)
  next-IsTable true j z table h = update-IsTable j z table h
  next-IsTable false j z table h = delete-IsTable j table h

  pub find-next :
      (b : Bool) (i j : ℕ) (z : Z) (table : Supplied Z)
      → IsTable table
      → find i (if b then update j z table else delete j table)
        ≡ (if j == i then (if b then some z else none) else find i table)
  find-next true i j z table h = find-update i j z table
  find-next false i j z table h = find-delete i j table h

module _ {Z V : Type 0} where
  abbrev pub Matches : Given Z V → Option Z → Option V → Type 0
  Matches unset d n = (d ≡ none) × (n ≡ none)
  Matches (fixed v) d n = (d ≡ none) × (n ≡ some v)
  Matches (typed z) d n = d ≡ some z

  -- The statement holds what has been given.
  abbrev pub Represents : State Z V → (ℕ → Given Z V) → Type 0
  Represents s g = IsTable s.deferred × ((i : ℕ) → Matches (g i) (find i s.deferred) (s.native i))

  -- What an execution uses.
  abbrev pub used : (Z → V) → Given Z V → Option V
  used value_of unset = none
  used value_of (fixed v) = some v
  used value_of (typed z) = some (value_of z)

  abbrev pub give : Conversion Z V → (Z → V) → Given Z V → Option Z → Given Z V
  give c value_of before none = before
  give c value_of before (some z) = if c.contains_typed z then typed z else fixed (value_of z)

  -- After an execution the last value that it supplies for an index is given.
  abbrev pub supply : Conversion Z V → (Z → V) → Supplied Z → (ℕ → Given Z V) → ℕ → Given Z V
  supply c value_of supplied g i = give c value_of (g i) (last_for i none supplied)

  -- The values of several inputs are those of each.
  abbrev pub ConvertsEach : Conversion Z V → (Z → V) → Type 0
  ConvertsEach c value_of =
      (xs : Supplied Z) (vs : List V)
      → c.convert (values_of xs) ≡ some vs
      → vs ≡ map_values value_of xs

  -- What a deferred value becomes when a value is supplied.
  abbrev settled : Conversion Z V → Option Z → Option Z → Option Z
  settled c none d = d
  settled c (some z) d = if c.contains_typed z then some z else none

  find-defer_supplied :
      (c : Conversion Z V) (i : ℕ) (xs deferred : Supplied Z) (retained : List Z)
      (found d : Option Z)
      → IsTable deferred
      → find i deferred ≡ settled c found d
      → IsTable (defer_supplied c xs deferred retained).0
        × (find i (defer_supplied c xs deferred retained).0 ≡ settled c (last_for i found xs) d)
  find-defer_supplied c i [] deferred retained found d t h = (t, h)
  find-defer_supplied c i ((j, z) ∷ xs) deferred retained found d t h =
      find-defer_supplied c i xs
        (if c.contains_typed z then update j z deferred else delete j deferred)
        (keep (find j deferred) retained) (if j == i then some z else found) d
        (next-IsTable (c.contains_typed z) j z deferred t)
        (find-next (c.contains_typed z) i j z deferred t
          ∙ (elim (Bool-cases (j == i)) [ inl e ↦ rw e refl | inr e ↦ rw e h ]))

  Matches-supplied :
      (c : Conversion Z V) (value_of : Z → V) (x : Given Z V) (o d : Option Z)
      (before after : Option V)
      → Matches x d before
      → after ≡ held value_of (or_else o d) before
      → Matches (give c value_of x o) (settled c o d) after
        × (after ≡ used value_of (give c value_of x o))
  Matches-supplied c value_of unset none d before after (m, n) h =
      let e : after ≡ none = h ∙ rw (m, n) refl in ((m, e), e)
  Matches-supplied c value_of (fixed v) none d before after (m, n) h =
      let e : after ≡ some v = h ∙ rw (m, n) refl in ((m, e), e)
  Matches-supplied c value_of (typed z) none d before after m h = (m, h ∙ rw m refl)
  Matches-supplied c value_of x (some z) d before after m h =
      elim (Bool-cases (c.contains_typed z)) [
        | inl e ↦ rw e (refl, h)
        | inr e ↦ rw e ((refl, h), h)
      ]

  -- What an execution that binds everything leaves.
  abbrev Executed : Conversion Z V → (Z → V) → Supplied Z → (ℕ → Given Z V) → After Z V → Type 0
  Executed c value_of supplied g after =
      Represents after.state (supply c value_of supplied g)
      × ((i : ℕ) → after.state.native i ≡ used value_of (supply c value_of supplied g i))

  bound-Executed :
      (e : Engine V) (c : Conversion Z V) (value_of : Z → V) (supplied : Supplied Z) (s : State Z V)
      (g : ℕ → Given Z V) (done : Bool × (ℕ → Option V))
      → Represents s g
      → bind_converted e
          (add_deferred s.deferred supplied)
          (map_values value_of (add_deferred s.deferred supplied))
          s.native
        ≡ done
      → (bound c supplied s done).outcome ≡ none
      → Executed c value_of supplied g (bound c supplied s done)
  bound-Executed e c value_of supplied s g (false, native) (t, m) h o = absurd (cc)
  bound-Executed e c value_of supplied s g (true, native) (t, m) h o =
      let each : (i : ℕ)
          → Matches (supply c value_of supplied g i)
              (settled c (last_for i none supplied) (find i s.deferred)) (native i)
            × (native i ≡ used value_of (supply c value_of supplied g i)) =
        λ i.
          Matches-supplied c value_of (g i) (last_for i none supplied) (find i s.deferred)
            (s.native i) (native i) (m i)
            (bind_converted-held e value_of i (add_deferred s.deferred supplied) none s.native
                native s.native h refl
              ∙ ap (λ o. held value_of o (s.native i))
                  (last_for-add_deferred i s.deferred supplied t)) in
      (
        (
          (find-defer_supplied c 0 supplied s.deferred [] none (find 0 s.deferred) t refl).0,
          λ i.
              rw (find-defer_supplied c i supplied s.deferred [] none (find i s.deferred) t refl).1
                (each i).0,
        ),
        λ i. (each i).1,
      )

  bind_all-Executed :
      (e : Engine V) (c : Conversion Z V) (value_of : Z → V) (supplied : Supplied Z) (s : State Z V)
      (g : ℕ → Given Z V) (vs : Option (List V))
      → ConvertsEach c value_of
      → Represents s g
      → c.convert (values_of (add_deferred s.deferred supplied)) ≡ vs
      → (bind_all e c supplied s vs).outcome ≡ none
      → Executed c value_of supplied g (bind_all e c supplied s vs)
  bind_all-Executed e c value_of supplied s g none law r h o = absurd (cc)
  bind_all-Executed e c value_of supplied s g (some vs) law r h o =
      bound-Executed e c value_of supplied s g
        (bind_converted e (add_deferred s.deferred supplied) vs s.native) r
        (rw (sym (law (add_deferred s.deferred supplied) vs h)) refl) o

  bind_supplied-Executed :
      (e : Engine V) (c : Conversion Z V) (value_of : Z → V) (s : State Z V) (g : ℕ → Given Z V)
      (r : Result (Supplied Z))
      → ConvertsEach c value_of
      → Represents s g
      → (bind_supplied e c s r).outcome ≡ none
      → (supplied : Supplied Z) × (r ≡ ok supplied)
        × Executed c value_of supplied g (bind_supplied e c s r)
  bind_supplied-Executed e c value_of s g (failed error) law t o = absurd (cc)
  bind_supplied-Executed e c value_of s g (ok supplied) law t o =
      (supplied, refl, bind_all-Executed e c value_of supplied s g _ law t refl o)

  -- When an execution has bound its parameters, the engine holds for each index what the statement has been given: the
  -- last value that the execution supplies for it, else a typed value that was given before, both converted for
  -- this execution, else the native value that was given before, else nothing. What the execution supplies
  -- counts as given from then on.
  pub bind_execution-Represents :
      (e : Engine V) (c : Conversion Z V) (value_of : Z → V) (params : Option (Params Z))
      (s : State Z V) (g : ℕ → Given Z V)
      → ConvertsEach c value_of
      → Represents s g
      → (bind_execution e c params s).outcome ≡ none
      → (supplied : Supplied Z) × (collected e params ≡ ok supplied)
        × Represents (bind_execution e c params s).state (supply c value_of supplied g)
        × ((i : ℕ)
            → (bind_execution e c params s).state.native i
              ≡ used value_of (supply c value_of supplied g i))
  unfolding bind_execution
  bind_execution-Represents e c value_of params s g law t o =
      let (supplied, eq, after) =
        bind_supplied-Executed e c value_of s g (collected e params) law t o in
      (supplied, eq, after.0, after.1)
