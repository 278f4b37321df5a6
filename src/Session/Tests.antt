-- ===== src/Session/Tests.antt =====
-- Runs of a session, and its theorems at concrete runs.
use php_duckdb.Prelude.{
  ◌≤◌, ◌≡◌, inl, inr, refl, sym, ◌∙◌, true, false, [], ◌∷◌, none, arith, codes, length-append, ◌==◌,
  if◌then◌else◌, Bool-cases,
}
use mathlib.Core.Path.{subst}
use php_duckdb.Session.{
  State, initial, close, begin_submit, take_front, finish_work, poll, Steps, stay, after, submits,
  takes, finishes, polls, closes, Others, service,
}
use php_duckdb.Session.Safety.{running-unreturned}
use php_duckdb.Session.Told.{failed-never_runs, served-ran}
use php_duckdb.Session.Service.{service-empties, AreSteps, AreBounded, pending}
use php_duckdb.Session.Preserved.{begin_submit-closed, begin_submit-opened}
use php_duckdb.Session.Poll.{close-opened, close-closed}

abbrev queued : State
queued = begin_submit 4 initial

abbrev running : State
running = take_front queued

abbrev answered : State
answered = poll false 4 (finish_work 4 running)

to_running : Steps initial running
to_running = after (after stay (submits 4 refl)) takes

running-unreturned_example : (running.requests 4).returned ≡ none
unfolding begin_submit take_front
running-unreturned_example = running-unreturned 4 to_running refl refl

to_answered : Steps initial answered
unfolding begin_submit take_front finish_work
to_answered = after (after to_running (finishes 4 refl)) (polls false 4 refl refl)

served-ran_example : ((answered.requests 4).finished ≡ true) × ((answered.requests 4).runs ≡ 1)
unfolding begin_submit take_front finish_work poll
served-ran_example = served-ran 4 to_answered refl

abbrev shut : State
shut = begin_submit 5 (close (codes "exit") initial)

to_shut : Steps initial shut
unfolding close
to_shut = after (after stay (closes (codes "exit"))) (submits 5 refl)

failed-never_runs_example : ((take_front shut).requests 5).runs ≡ 0
unfolding begin_submit close
failed-never_runs_example = failed-never_runs 5 (codes "exit") to_shut refl (after stay takes)

two_queued : Steps initial (begin_submit 6 queued)
unfolding begin_submit
two_queued = after (after stay (submits 4 refl)) (submits 6 refl)

-- Another thread submits request 1 while a work runs, if it did not before.
abbrev submit_once : State → State
submit_once s = if (s.requests 1).submitted then s else begin_submit 1 s

abbrev submitting : Others
submitting = record { during = λ r s. submit_once s; behind = λ r s. close (codes "exit") s }

once : (s : State) → (s.requests 1).submitted ≡ true → submit_once s ≡ s
once s t = rw t

first : (s : State) → (s.requests 1).submitted ≡ false → submit_once s ≡ begin_submit 1 s
first s f = rw f

submit_once-Steps : (s : State) → Steps s (submit_once s)
submit_once-Steps s = elim (Bool-cases (s.requests 1).submitted) [
  | inl t ↦ subst (Steps s) (sym (once s t)) stay
  | inr f ↦ subst (Steps s) (sym (first s f)) (after stay (submits 1 f))
]

-- A state that needs no more calls than another.
NoMore : State → State → Type 0
NoMore s t = pending 2 t ≤ pending 2 s

submit_once-bounded : (s : State) → NoMore s (submit_once s)
unfolding NoMore
submit_once-bounded s = elim (Bool-cases (s.requests 1).submitted) [
  | inl t ↦ subst (NoMore s) (sym (once s t)) (omega arith)
  | inr f ↦ elim (Bool-cases s.opened) [
    | inl o ↦
        subst (NoMore s) (sym (first s f ∙ begin_submit-opened 1 s o))
          (rw (length-append s.queue (1 ∷ []), f) (omega arith))
    | inr c ↦ subst (NoMore s) (sym (first s f ∙ begin_submit-closed 1 s c)) (rw f (omega arith))
  ]
]

close-bounded : (s : State) → NoMore s (close (codes "exit") s)
unfolding NoMore
close-bounded s = elim (Bool-cases s.opened) [
  | inl o ↦ subst (NoMore s) (sym (close-opened (codes "exit") s o)) (omega arith)
  | inr c ↦ subst (NoMore s) (sym (close-closed (codes "exit") s c)) (omega arith)
]

submitting-AreSteps : AreSteps submitting
submitting-AreSteps = record {
  during_steps = λ r s. submit_once-Steps s;
  behind_steps = λ r s. after stay (closes (codes "exit"));
}

submitting-AreBounded : AreBounded 2 submitting
unfolding NoMore
submitting-AreBounded = record {
  during_bounded = λ r s. submit_once-bounded s;
  behind_bounded = λ r s. close-bounded s;
}

service-empties_example :
    (service submitting (λ r. r == 6) (codes "exit") 4 (begin_submit 6 queued)).queue ≡ []
unfolding begin_submit
service-empties_example =
    service-empties submitting submitting-AreSteps 2 (λ r. r == 6) (codes "exit") 4
      (begin_submit 6 queued) submitting-AreBounded two_queued (omega arith)
