-- ===== src/PumpQuery/Cleanup.antt =====
-- No result is leaked by `duckdb_pump_query`, and none is destroyed twice.
use php_duckdb.Prelude.{
  ℕ, ◌+◌, ◌≡◌, inl, inr, sym, ap, ◌∙◌, true, false, ◌&&◌, List, [], ◌∷◌, arith, length, ltb, ◌==◌,
  if◌then◌else◌, Bool-cases,
}
use mathlib.Core.Path.{subst}
use php_duckdb.PumpQuery.{
  Attempt, Failure, prepare_error, start_failure, result_error, Locals, Answer, thrown, returned,
  is_empty, nothing_held, released, keep, run_statements, pump_query,
}
use php_duckdb.PumpQuery.Results.{passes, nil-returns, keep-held, keep-new, run-passes}

abbrev pub how_many : ℕ → List ℕ → ℕ
how_many k [] = 0
how_many k (x ∷ xs) = (if k == x then 1 else 0) + how_many k xs

-- How often `k` stands in the results that exist: once, if it is below `i`.
Accounts : ℕ → List ℕ → Type 0
Accounts i results = (k : ℕ) → how_many k results ≡ (if ltb k i then 1 else 0)

Accounts-swap :
    (i x y : ℕ) (results : List ℕ) → Accounts i (x ∷ y ∷ results) → Accounts i (y ∷ x ∷ results)
unfolding Accounts
Accounts-swap i x y results h k = omega (arith, h k)

one_more :
    (k i : ℕ)
    → (if k == i then 1 else 0) + (if ltb k i then 1 else 0) ≡ (if ltb k (i + 1) then 1 else 0)
one_more k i = ground arith

Accounts-next : (i : ℕ) (results : List ℕ) → Accounts i results → Accounts (i + 1) (i ∷ results)
unfolding Accounts
Accounts-next i results h k = ap (λ (n : ℕ). (if k == i then 1 else 0) + n) (h k) ∙ one_more k i

keep-Accounts :
    (i : ℕ) (a : Attempt) (l : Locals)
    → Accounts i (released l)
    → Accounts (i + 1) (released (keep i a l))
keep-Accounts i a l h = elim (Bool-cases (l.held && l.held_rows)) [
  | inl t ↦
      let held : l.held ≡ true = ground arith in
      let e : released (keep i a l) ≡ l.out ∷ i ∷ l.destroyed =
        ap released (keep-held i a l t) ∙ rw held in
      let before : released l ≡ l.out ∷ l.destroyed = rw held in
      subst (Accounts (i + 1)) (sym e) (
        Accounts-swap (i + 1) i l.out l.destroyed
          (Accounts-next i (l.out ∷ l.destroyed) (subst (Accounts i) before h)))
  | inr f ↦
      subst (Accounts (i + 1)) (sym (ap released (keep-new i a l f)))
        (Accounts-next i (released l) h)
]

-- The statements that have made a result: those before the one that failed, this one too if it was executed, or all.
abbrev pub failed_at : Failure → ℕ
failed_at (prepare_error i) = i
failed_at (start_failure i) = i
failed_at (result_error i) = i + 1

-- The results that exist when the call ends: destroyed, or held for the caller.
abbrev pub results_of : Answer → List ℕ
results_of (thrown failure destroyed) = destroyed
results_of (returned l) = released l

abbrev pub statements_done : Answer → ℕ → ℕ
statements_done (thrown failure destroyed) total = failed_at failure
statements_done (returned l) total = total

-- The answer accounts for every result.
Settled : ℕ → Answer → Type 0
Settled total answer = Accounts (statements_done answer total) (results_of answer)

fail-Settled :
    (failure : Failure) (total : ℕ) (l : Locals)
    → Accounts (failed_at failure) (released l)
    → Settled total (thrown failure (released l))
unfolding Settled
fail-Settled failure total l h = h

error-Settled :
    (i total : ℕ) (l : Locals)
    → Accounts i (released l)
    → Settled total (thrown (result_error i) (i ∷ released l))
unfolding Settled
error-Settled i total l h = Accounts-next i (released l) h

run-unprepared :
    (a : Attempt) (attempts : List Attempt) (i : ℕ) (l : Locals)
    → a.prepared ≡ false
    → run_statements (a ∷ attempts) i l ≡ thrown (prepare_error i) (released l)
unfolding run_statements
run-unprepared a attempts i l e = ground arith

run-unstarted :
    (a : Attempt) (attempts : List Attempt) (i : ℕ) (l : Locals)
    → a.prepared ≡ true
    → is_empty a.start_error ≡ false
    → run_statements (a ∷ attempts) i l ≡ thrown (start_failure i) (released l)
unfolding run_statements
run-unstarted a attempts i l e f = ground arith

run-unsuccessful :
    (a : Attempt) (attempts : List Attempt) (i : ℕ) (l : Locals)
    → a.prepared ≡ true
    → is_empty a.start_error ≡ true
    → a.succeeded ≡ false
    → run_statements (a ∷ attempts) i l ≡ thrown (result_error i) (i ∷ released l)
unfolding run_statements
run-unsuccessful a attempts i l e f g = ground arith

all_three :
    (a : Attempt)
    → a.prepared ≡ true
    → is_empty a.start_error ≡ true
    → a.succeeded ≡ true
    → passes a ≡ true
all_three a e f g = ground arith

end-Settled :
    (total i : ℕ) (l : Locals) → i ≡ total → Accounts i (released l) → Settled total (returned l)
unfolding Settled
end-Settled total i l e h = subst (λ n. Accounts n (released l)) e h

run-Settled :
    (attempts : List Attempt) (i total : ℕ) (l : Locals)
    → total ≡ i + length attempts
    → Accounts i (released l)
    → Settled total (run_statements attempts i l)
run-Settled [] i total l e h =
    subst (Settled total) (sym (nil-returns i l)) (end-Settled total i l (omega (arith, e)) h)
run-Settled (a ∷ attempts) i total l e h = elim (Bool-cases a.prepared) [
  | inr f ↦
      subst (Settled total) (sym (run-unprepared a attempts i l f))
        (fail-Settled (prepare_error i) total l h)
  | inl p ↦ elim (Bool-cases (is_empty a.start_error)) [
    | inr f ↦
        subst (Settled total) (sym (run-unstarted a attempts i l p f))
          (fail-Settled (start_failure i) total l h)
    | inl s ↦ elim (Bool-cases a.succeeded) [
      | inr f ↦
          subst (Settled total) (sym (run-unsuccessful a attempts i l p s f))
            (error-Settled i total l h)
      | inl g ↦ subst (Settled total) (sym (run-passes a attempts i l (all_three a p s g))) (
          run-Settled attempts (i + 1) total (keep i a l) (omega (arith, e))
            (keep-Accounts i a l h))
    ]
  ]
]

-- Whether the call returns or throws, each result that an executed statement has made, that of a failed execution
-- too, is destroyed exactly once or is the one held for the caller, and no other is destroyed.
pub pump_query-settles :
    (attempts : List Attempt) (k : ℕ)
    → how_many k (results_of (pump_query attempts))
      ≡ (if ltb k (statements_done (pump_query attempts) (length attempts)) then 1 else 0)
unfolding pump_query Settled Accounts
pump_query-settles attempts k =
    run-Settled attempts 0 (length attempts) nothing_held (omega arith) (λ n. ground arith) k
