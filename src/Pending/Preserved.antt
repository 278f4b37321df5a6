-- ===== src/Pending/Preserved.antt =====
-- Every critical section keeps the invariant of a task.
use php_duckdb.Prelude.{suc, ◌≡◌, refl, Bool, true, false, Option, none, some, arith, if◌then◌else◌}
use php_duckdb.Pending.{
  Error, interrupted, Worker, queued, settled, published, no_worker, entered, Task, is_polling,
  first, destroy_if, step, complete, complete_with, cancel, Step, begins, settles, publishes, steps,
  cancels, completes, Steps, threaded, polled, after,
}
use php_duckdb.Pending.Sound.{
  Idle, Answered, Polled, Phase, Sound, without_worker, closed-Sound, begin_run-Sound,
  settle_run-Sound, publish_run-Sound, aside-Sound, step-Sound,
}

-- A polled task that is not done still has its query.
open_at : (s : Task) (b : Bool) → Polled b s → s.done ≡ false → Idle s
open_at s true (going, idle) d = idle
open_at s false (done, answered) d = cc

if-Sound_pair :
    {B : Type 0} (b : Bool) (x y : Task × B)
    → (b ≡ true → Sound x.0)
    → (b ≡ false → Sound y.0)
    → Sound (if b then x else y).0
if-Sound_pair true x y h k = h refl
if-Sound_pair false x y h k = k refl

stop_polling-Sound :
    (s : Task)
    → Sound s
    → s.done ≡ false
    → is_polling s.mode ≡ true
    → Sound (record (destroy_if true s) {
      record_open = false;
      consumed = true;
      error = some interrupted;
      done = true;
    })
stop_polling-Sound s h d p =
    let (w, still, shape) = without_worker s h p in
    let (fine, kept, none_held) = open_at s s.record_open shape d in
    let counts = h.1 in
    closed-Sound s _ w (refl, refl, still, refl) refl (ground arith, λ x. refl) (ground arith) h.2

cancel-Sound :
    (starts still_runs : Bool) (s : Task) → Sound s → Sound (cancel starts still_runs s).0
unfolding cancel
cancel-Sound starts still_runs s h =
    if-Sound_pair s.done _ _ (λ x. h)
      (λ d. if-Sound_pair (is_polling s.mode) _ _ (stop_polling-Sound s h d) (λ p.
        if-Sound_pair s.cancel_requested _ _ (λ x. h)
          (λ r.
            if-Sound_pair starts _ _ (λ x. aside-Sound true s.late_cause s.cause s h) (λ x. h))))

-- What a task that is done has come to.
outcome_at : (x : Worker) (s : Task) → Phase x s → s.done ≡ true → Answered s
outcome_at queued s (going, still, closed, idle) d = cc
outcome_at (entered c) s (going, running, closed, idle) d = cc
outcome_at settled s (going, closed, answered) d = answered
outcome_at published s (done, still, closed, answered) d = answered
outcome_at no_worker s (still, shape) d = polled_answer s.record_open shape
  where
    polled_answer : (b : Bool) → Polled b s → Answered s
    polled_answer true (going, idle) = cc
    polled_answer false (done, answered) = answered

pub done-Answered : (s : Task) → Sound s → s.done ≡ true → Answered s
done-Answered s (phase, counts, mode) d = outcome_at s.worker s phase d

-- The result is given away.
abbrev given : Task → Task
given s = record s { late_cause = none; consumed = true; result = false; handed = suc s.handed }

given-Phase : (x : Worker) (s : Task) → Phase x s → s.done ≡ true → Phase x (given s)
given-Phase queued s (going, still, closed, idle) d = cc
given-Phase (entered c) s (going, running, closed, idle) d = cc
given-Phase settled s (going, closed, answered) d = cc
given-Phase published s (done, still, closed, answered) d = (done, still, closed, (refl, λ x. refl))
given-Phase no_worker s (still, shape) d = (still, given_polled s.record_open shape)
  where
    given_polled : (b : Bool) → Polled b s → Polled b (given s)
    given_polled true (going, idle) = cc
    given_polled false (done, answered) = (done, (refl, λ x. refl))

given-Sound : (s : Task) → Sound s → s.done ≡ true → s.consumed ≡ false → Sound (given s)
given-Sound s (phase, counts, mode) d c =
    let (held, _) = outcome_at s.worker s phase d in
    (given-Phase s.worker s phase d, ground arith, mode)

complete_with-Sound :
    (o : Option Error) (s : Task) → s.done ≡ true → Sound s → Sound (complete_with o s).0
complete_with-Sound (some e) s d h =
    aside-Sound s.cancel_requested none (first s.cause s.late_cause) s h
complete_with-Sound none s d h =
    if-Sound_pair s.consumed _ _ (λ x. aside-Sound s.cancel_requested none s.cause s h)
      (λ c. given-Sound s h d c)

complete-Sound : (s : Task) → s.done ≡ true → Sound s → Sound (complete s).0
unfolding complete
complete-Sound s d h = complete_with-Sound s.error s d h

Step-Sound : {s t : Task} → Step s t → Sound s → Sound t
Step-Sound (begins w) h = begin_run-Sound _ w h
Step-Sound (settles c o w) h = settle_run-Sound o c _ w h
Step-Sound (publishes w) h = publish_run-Sound _ w h
Step-Sound (steps slice unwinding raised) h = step-Sound slice unwinding raised _ h
Step-Sound (cancels starts still_runs) h = cancel-Sound starts still_runs _ h
Step-Sound (completes d) h = complete-Sound _ d h

pub Steps-Sound : {s : Task} → Steps s → Sound s
Steps-Sound (threaded mode p) = ((refl, refl, refl, (refl, refl, refl)), refl, p)
Steps-Sound polled = ((refl, (refl, (refl, refl, refl))), refl, refl)
Steps-Sound (after h step) = Step-Sound step (Steps-Sound h)
