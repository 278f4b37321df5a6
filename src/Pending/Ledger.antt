-- ===== src/Pending/Ledger.antt =====
-- What becomes of the native result of a task, and when its connection is interrupted.
use php_duckdb.Prelude.{◌+◌, ◌≡◌, ◌⊎◌, inl, inr, refl, Bool, true, false, arith, Bool-cases}
use php_duckdb.Pending.{
  Worker, queued, settled, published, no_worker, entered, Task, cancel, is_polling,
  round_interrupts, drop_task, Steps,
}
use php_duckdb.Pending.Sound.{Polled, Phase}
use php_duckdb.Pending.Preserved.{Steps-Sound}

consumed_of : (x : Worker) (s : Task) → Phase x s → s.consumed ≡ true → s.result ≡ false
consumed_of queued s (going, still, closed, (fine, kept, none_held)) c = none_held
consumed_of (entered b) s (going, running, closed, (fine, kept, none_held)) c = none_held
consumed_of settled s (going, closed, (held, error)) c = ground arith
consumed_of published s (done, still, closed, (held, error)) c = ground arith
consumed_of no_worker s (still, shape) c = polled_result s.record_open shape
  where
    polled_result : (b : Bool) → Polled b s → s.result ≡ false
    polled_result true (going, (fine, kept, none_held)) = none_held
    polled_result false (done, (held, error)) = ground arith

-- When a task of any mode is released, after any calls of the request thread and any progress of its
-- worker, it holds no registered query, and the native results that it got are as many as those that
-- were destroyed and those that were given to PHP together.
pub drop_task-settles :
    (s : Task)
    → Steps s
    → ((drop_task s).record_open ≡ false)
      × ((drop_task s).made ≡ (drop_task s).released + (drop_task s).handed)
unfolding drop_task
drop_task-settles s h =
    let (phase, counts, mode) = Steps-Sound h in
    let none_held : s.consumed ≡ true → s.result ≡ false = consumed_of s.worker s phase in
    elim (Bool-cases s.consumed) [
      | inl c ↦ let r : s.result ≡ false = none_held c in ((ground arith), (ground arith))
      | inr c ↦ ((ground arith), (ground arith))
    ]

-- Whether the worker holds the lock of the connection.
abbrev pub holds_lock : Worker → Bool
holds_lock queued = false
holds_lock published = false
holds_lock no_worker = false
holds_lock settled = true
holds_lock (entered cancelled) = true

running_locks : (x : Worker) (s : Task) → Phase x s → s.worker_running ≡ true → holds_lock x ≡ true
running_locks queued s (going, still, closed, idle) r = cc
running_locks (entered b) s h r = refl
running_locks settled s h r = refl
running_locks published s (done, still, closed, answered) r = cc
running_locks no_worker s (still, shape) r = cc

-- A registered query that the engine still runs, of a polled task that is not done.
abbrev pub OwnQuery : Bool → Task → Type 0
OwnQuery still_runs s =
    (is_polling s.mode ≡ true) × (s.done ≡ false) × (s.record_open ≡ true) × (still_runs ≡ true)

cancel_running :
    (starts still_runs : Bool) (s : Task)
    → (cancel starts still_runs s).1 ≡ true
    → (s.worker_running ≡ true) ⊎ OwnQuery still_runs s
unfolding cancel
cancel_running starts still_runs s h = elim (Bool-cases (is_polling s.mode)) [
  | inl p ↦ inr (p, ground arith, ground arith, ground arith)
  | inr p ↦ inl (ground arith)
]

-- Whatever the threads have done, the connection is interrupted, by a call of `cancel` or by the
-- cancellation thread, only while the worker of the same task holds the lock of the connection, or by the
-- cancellation of a polled task that is not done, for its own query, registered and still run by the engine.
pub interrupts-locked :
    (s : Task) (starts still_runs : Bool)
    → Steps s
    → (round_interrupts s ≡ true) ⊎ ((cancel starts still_runs s).1 ≡ true)
    → (holds_lock s.worker ≡ true) ⊎ OwnQuery still_runs s
interrupts-locked s starts still_runs h (inl round) =
    inl (running_locks s.worker s (Steps-Sound h).0 (ground arith))
interrupts-locked s starts still_runs h (inr cancelled) =
    elim (cancel_running starts still_runs s cancelled) [
      | inl r ↦ inl (running_locks s.worker s (Steps-Sound h).0 r)
      | inr own ↦ inr own
    ]
