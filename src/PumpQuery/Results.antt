-- ===== src/PumpQuery/Results.antt =====
-- Which result `duckdb_pump_query` returns, and which it destroys.
use php_duckdb.Prelude.{
  ℕ, ◌+◌, ◌≡◌, inl, inr, refl, sym, ap, ◌∙◌, Bool, true, false, ◌&&◌, List, [], ◌∷◌, arith,
  if◌then◌else◌, Bool-cases,
}
use mathlib.Core.Path.{subst}
use php_duckdb.PumpQuery.{
  Attempt, Locals, returned, is_empty, nothing_held, released, keep, run_statements, pump_query,
}

-- A statement that is prepared, starts and succeeds.
abbrev pub passes : Attempt → Bool
passes a = a.prepared && (is_empty a.start_error && a.succeeded)

abbrev pub all_pass : List Attempt → Bool
all_pass [] = true
all_pass (a ∷ attempts) = passes a && all_pass attempts

-- The statement whose result is wanted: the first that returns rows, else the last.
abbrev pub chosen : Attempt → List Attempt → ℕ → ℕ × Attempt
chosen a [] i = (i, a)
chosen a (b ∷ attempts) i = if a.rows then (i, a) else chosen b attempts (i + 1)

pub run-passes :
    (a : Attempt) (attempts : List Attempt) (i : ℕ) (l : Locals)
    → passes a ≡ true
    → run_statements (a ∷ attempts) i l ≡ run_statements attempts (i + 1) (keep i a l)
unfolding run_statements
run-passes a attempts i l e = ground arith

false≢true : false ≡ true → ⊥
false≢true e = cc

passes-both :
    (a : Attempt) (attempts : List Attempt)
    → all_pass (a ∷ attempts) ≡ true
    → (passes a ≡ true) × (all_pass attempts ≡ true)
passes-both a attempts e = elim (Bool-cases (passes a)) [
  | inl t ↦ (t, sym (ap (λ (b : Bool). b && all_pass attempts) t) ∙ e)
  | inr f ↦ elim (false≢true (sym (ap (λ (b : Bool). b && all_pass attempts) f) ∙ e)) [ ]
]

pub keep-held :
    (i : ℕ) (a : Attempt) (l : Locals)
    → (l.held && l.held_rows) ≡ true
    → keep i a l ≡ record {
      held = l.held;
      held_rows = l.held_rows;
      out = l.out;
      out_type = l.out_type;
      destroyed = i ∷ l.destroyed;
    }
unfolding keep
keep-held i a l e = ground arith

pub keep-new :
    (i : ℕ) (a : Attempt) (l : Locals)
    → (l.held && l.held_rows) ≡ false
    → keep i a l ≡ record {
      held = true;
      held_rows = a.rows;
      out = i;
      out_type = a.kind;
      destroyed = released l;
    }
unfolding keep
keep-new i a l e = ground arith

-- The locals `l` after the loop hold the result of the statement `n` of type `t`.
abbrev Holds : Locals → ℕ → ℕ → Type 0
Holds l n t = (l.out ≡ n) × (l.out_type ≡ t) × (l.held ≡ true)

-- Once a result with rows is held, it stays.
run-held :
    (attempts : List Attempt) (i : ℕ) (l : Locals)
    → all_pass attempts ≡ true
    → l.held ≡ true
    → l.held_rows ≡ true
    → (l' : Locals) × (run_statements attempts i l ≡ returned l') × Holds l' l.out l.out_type
unfolding run_statements
run-held [] i l e h r = (l, refl, (refl, refl, h))
run-held (a ∷ attempts) i l e h r =
    let (first, rest) = passes-both a attempts e in
    let kept = keep-held i a l (ground arith) in
    let same : Locals = record {
      held = l.held;
      held_rows = l.held_rows;
      out = l.out;
      out_type = l.out_type;
      destroyed = i ∷ l.destroyed;
    } in
    let (l', e', holds) = run-held attempts (i + 1) same rest h r in
    (l', run-passes a attempts i l first ∙ ap (run_statements attempts (i + 1)) kept ∙ e', holds)

pub nil-returns : (i : ℕ) (l : Locals) → run_statements [] i l ≡ returned l
unfolding run_statements
nil-returns i l = refl

pick-first :
    (a b : Attempt) (attempts : List Attempt) (i : ℕ)
    → a.rows ≡ true
    → chosen a (b ∷ attempts) i ≡ (i, a)
pick-first a b attempts i e = ground arith

pick-later :
    (a b : Attempt) (attempts : List Attempt) (i : ℕ)
    → a.rows ≡ false
    → chosen a (b ∷ attempts) i ≡ chosen b attempts (i + 1)
pick-later a b attempts i e = ground arith

-- A statement's result replaces one without rows.
run-chosen :
    (a : Attempt) (attempts : List Attempt) (i : ℕ) (l : Locals)
    → all_pass (a ∷ attempts) ≡ true
    → (l.held && l.held_rows) ≡ false
    → (l' : Locals) × (run_statements (a ∷ attempts) i l ≡ returned l')
      × Holds l' (chosen a attempts i).0 (chosen a attempts i).1.kind
run-chosen a [] i l e h =
    let (first, rest) = passes-both a [] e in
    let new : Locals = record {
      held = true;
      held_rows = a.rows;
      out = i;
      out_type = a.kind;
      destroyed = released l;
    } in
    let run =
      run-passes a [] i l first
      ∙ ap (run_statements [] (i + 1)) (keep-new i a l h)
      ∙ nil-returns (i + 1) new in
    (new, run, (refl, refl, refl))
run-chosen a (b ∷ attempts) i l e h =
    let (first, rest) = passes-both a (b ∷ attempts) e in
    let new : Locals = record {
      held = true;
      held_rows = a.rows;
      out = i;
      out_type = a.kind;
      destroyed = released l;
    } in
    let run =
      run-passes a (b ∷ attempts) i l first
      ∙ ap (run_statements (b ∷ attempts) (i + 1)) (keep-new i a l h) in
    elim (Bool-cases a.rows) [
      | inl t ↦
          let (l', e', holds) = run-held (b ∷ attempts) (i + 1) new rest refl t in
          (
            l',
            run ∙ e',
            subst (λ (c : ℕ × Attempt). Holds l' c.0 c.1.kind) (sym (pick-first a b attempts i t))
                holds,
          )
      | inr f ↦
          let (l', e', holds) = run-chosen b attempts (i + 1) new rest f in
          (
            l',
            run ∙ e',
            subst (λ (c : ℕ × Attempt). Holds l' c.0 c.1.kind) (sym (pick-later a b attempts i f))
                holds,
          )
    ]

-- When every statement is prepared, starts and succeeds, the call returns the result and the type of
-- the first statement that returns rows, or of the last one when none does.
pub pump_query-chosen :
    (a : Attempt) (attempts : List Attempt)
    → all_pass (a ∷ attempts) ≡ true
    → (l : Locals) × (pump_query (a ∷ attempts) ≡ returned l)
      × (l.out ≡ (chosen a attempts 0).0)
      × (l.out_type ≡ (chosen a attempts 0).1.kind)
      × (l.held ≡ true)
unfolding pump_query
pump_query-chosen a attempts e =
    let (l, run, (out, kind, held)) = run-chosen a attempts 0 nothing_held e refl in
    (l, run, out, kind, held)
