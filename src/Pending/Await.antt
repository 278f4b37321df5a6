-- ===== src/Pending/Await.antt =====
-- A polled query comes to the end that the engine gives it.
use php_duckdb.Prelude.{
  ℕ, ◌≡◌, refl, sym, ap, Bool, true, false, List, [], ◌∷◌, Option, none, some, if◌then◌else◌,
}
use mathlib.Core.Path.{subst}
use php_duckdb.Pending.{
  refused, Task, first, polled_task, Slice, unfinished, no_lease, finished, step, step_once,
  step_slices, complete, Completed, thrown, returned, await_steps,
}

-- What the first slice that ends a query makes of it.
abbrev pub answer_of : Slice → Option Completed
answer_of unfinished = none
answer_of (no_lease text) = some (thrown (refused text))
answer_of (finished none) = some returned
answer_of (finished (some e)) = some (thrown e)

abbrev pub first_answer : List (Slice × Option ℕ) → Option Completed
first_answer [] = none
first_answer ((slice, raised) ∷ slices) = first (answer_of slice) (first_answer slices)

-- A polled task that waits, with the exceptions that it and the request keep.
abbrev waiting : Option ℕ → Option ℕ → Task
waiting late cause = record polled_task { late_cause = late; cause = cause }

unfinished_step :
    (late cause raised : Option ℕ)
    → (late' : Option ℕ) × (cause' : Option ℕ) × (step unfinished [] raised (waiting late cause)
        ≡ waiting late' cause')
unfolding step step_once step_slices
unfinished_step late none raised = (first late raised, none, refl)
unfinished_step late (some x) raised = (late, some x, refl)

abbrev Finishes : Completed → Task → Type 0
Finishes answer s = (s.done ≡ true) × ((complete s).1 ≡ answer)

last_step :
    (slice : Slice) (answer : Completed) (late cause raised : Option ℕ)
    → answer_of slice ≡ some answer
    → Finishes answer (step slice [] raised (waiting late cause))
unfolding step step_once step_slices complete
last_step unfinished answer late cause raised h = cc
last_step (no_lease text) answer late none raised h = (refl, cc)
last_step (no_lease text) answer late (some x) raised h = (refl, cc)
last_step (finished none) answer late none raised h = (refl, cc)
last_step (finished none) answer late (some x) raised h = (refl, cc)
last_step (finished (some e)) answer late none raised h = (refl, cc)
last_step (finished (some e)) answer late (some x) raised h = (refl, cc)

if_true : (b : Bool) (s t : Task) → b ≡ true → (if b then s else t) ≡ s
if_true true s t h = refl
if_true false s t h = cc

await_last :
    (slice : Slice) (raised : Option ℕ) (slices : List (Slice × Option ℕ)) (answer : Completed)
    (s : Task)
    → Finishes answer (step slice [] raised s)
    → Finishes answer (await_steps ((slice, raised) ∷ slices) s)
unfolding await_steps
await_last slice raised slices answer s h = subst (Finishes answer) (sym (if_true _ _ _ h.0)) h

await_more :
    (raised : Option ℕ) (slices : List (Slice × Option ℕ)) (late cause late' cause' : Option ℕ)
    → step unfinished [] raised (waiting late cause) ≡ waiting late' cause'
    → await_steps ((unfinished, raised) ∷ slices) (waiting late cause)
      ≡ await_steps slices (waiting late' cause')
unfolding await_steps
await_more raised slices late cause late' cause' e =
    ap (λ (t : Task). if t.done then t else await_steps slices t) e

await_from :
    (slices : List (Slice × Option ℕ)) (answer : Completed) (late cause : Option ℕ)
    → first_answer slices ≡ some answer
    → Finishes answer (await_steps slices (waiting late cause))
await_from [] answer late cause h = cc
await_from ((unfinished, raised) ∷ slices) answer late cause h =
    let (late', cause', e) = unfinished_step late cause raised in
    subst (Finishes answer) (sym (await_more raised slices late cause late' cause' e))
      (await_from slices answer late' cause' h)
await_from ((no_lease text, raised) ∷ slices) answer late cause h =
    await_last (no_lease text) raised slices answer _
      (last_step (no_lease text) answer late cause raised h)
await_from ((finished none, raised) ∷ slices) answer late cause h =
    await_last (finished none) raised slices answer _
      (last_step (finished none) answer late cause raised h)
await_from ((finished (some e), raised) ∷ slices) answer late cause h =
    await_last (finished (some e)) raised slices answer _
      (last_step (finished (some e)) answer late cause raised h)

-- If one of the slices that the engine gives ends the query, whatever handlers raise meanwhile, then the
-- loop of `await` on a fresh polled task ends with the task done, and the completion returns the result
-- or throws the error of the first such slice.
pub await-first_answer :
    (slices : List (Slice × Option ℕ)) (answer : Completed)
    → first_answer slices ≡ some answer
    → ((await_steps slices polled_task).done ≡ true)
      × ((complete (await_steps slices polled_task)).1 ≡ answer)
await-first_answer slices answer h = await_from slices answer none none h
