-- ===== src/Pending.antt =====
-- src/pending.cpp: one asynchronous query, its worker thread and the methods of its PendingQuery.
pub mod Sound
pub mod Preserved
pub mod Ledger
pub mod Await
mod Tests
use php_duckdb.Prelude.{
  ℕ, zero, suc, ◌+◌, Bool, true, false, not, ◌&&◌, ◌||◌, List, [], ◌∷◌, Option, none, some, Bytes,
  if◌then◌else◌, ◌≡◌,
}

pub data Mode : Type 0 where
  thread_query thread_prepared polling : Mode

pub data Error : Type 0 where
  interrupted : Error
  refused failed : Bytes → Error

-- How far the worker thread is: before its first critical section, inside the connection's lock with
-- what it read of the cancellation, behind the execution, and at its end. A polled task has no worker.
pub data Worker : Type 0 where
  queued settled published no_worker : Worker
  entered : Bool → Worker

-- `async_task`: whether it holds a native result and a registered pending query. An exception is a
-- number; `cause` is the one that the request keeps for a later error. The last three fields count the
-- native results that the task got, destroyed and gave to PHP.
pub record Task : Type 0 where
  pub mode : Mode
  pub done : Bool
  pub cancel_requested : Bool
  pub worker_running : Bool
  pub error : Option Error
  pub consumed : Bool
  pub result : Bool
  pub record_open : Bool
  pub late_cause : Option ℕ
  pub cause : Option ℕ
  pub worker : Worker
  pub made : ℕ
  pub released : ℕ
  pub handed : ℕ

abbrev pub is_polling : Mode → Bool
is_polling thread_query = false
is_polling thread_prepared = false
is_polling polling = true

abbrev pub is_some {ℓ} : {A : Type ℓ} → Option A → Bool
is_some none = false
is_some (some a) = true

abbrev pub first {ℓ} : {A : Type ℓ} → Option A → Option A → Option A
first none b = b
first (some a) b = some a

-- A task of a worker thread, and one of `queryPending`.
abbrev pub start_task : Mode → Bool → Worker → Task
start_task mode record_open worker = record {
  mode = mode;
  done = false;
  cancel_requested = false;
  worker_running = false;
  error = none;
  consumed = false;
  result = false;
  record_open = record_open;
  late_cause = none;
  cause = none;
  worker = worker;
  made = 0;
  released = 0;
  handed = 0;
}

abbrev pub threaded_task : Mode → Task
threaded_task mode = start_task mode false queued

abbrev pub polled_task : Task
polled_task = start_task polling true no_worker

-- `duckdb_destroy_result` under a condition; it does nothing to an empty handle.
abbrev pub destroy_if : Bool → Task → Task
destroy_if condition s = record s {
  result = s.result && not condition;
  released = if condition && s.result then suc s.released else s.released;
}

-- An execution fills the result, and says what failed.
abbrev pub executed : Option Error → Task → Task
executed outcome s = record s { error = first outcome s.error; result = true; made = suc s.made }

abbrev pub drop_failed : Task → Task
drop_failed s = record (destroy_if (is_some s.error) s) { consumed = s.consumed || is_some s.error }

-- `duckdb_async_run_task`: the first critical section of the task, the execution, and the last one.
abbrev pub begin_run : Task → Task
begin_run s = record s {
  worker_running = not s.cancel_requested;
  worker = entered s.cancel_requested;
}

abbrev pub settle_run : Option Error → Bool → Task → Task
settle_run outcome cancelled s =
    record (drop_failed
      (if cancelled then record s { error = some interrupted } else executed outcome s)) {
        worker = settled;
      }

abbrev pub publish_run : Task → Task
publish_run s = record s { worker_running = false; done = true; worker = published }

-- `duckdb_task_finish_pending`.
abbrev pub finish_pending : Option Error → Task → Task
finish_pending outcome s = drop_failed (record (executed outcome s) { record_open = false })

-- What a slice of a polled query comes to: more to do, a lease that the helper refused, or the outcome
-- of its execution.
pub data Slice : Type 0 where
  unfinished : Slice
  no_lease : Bytes → Slice
  finished : Option Error → Slice

abbrev pub poll : Slice → Task → Task
poll unfinished s = s
poll (no_lease text) s = record s {
  error = some (refused text);
  consumed = true;
  record_open = false;
  done = true;
}
poll (finished outcome) s = record (finish_pending outcome s) { done = true }

-- `duckdb_task_step_once`; it returns what `done` is then.
unfoldable pub step_once : Slice → Task → Task
step_once slice s =
    if not (is_polling s.mode) then s else if not s.record_open then s else poll slice s

-- The further steps of `duckdb_task_step` while the process unwinds, with the slices that the engine
-- would give.
unfoldable pub step_slices : List Slice → Task → Task
step_slices [] s = s
step_slices (slice ∷ slices) s =
    let rest = step_slices slices (step_once slice s) in
    if (step_once slice s).done then step_once slice s else rest

-- `duckdb_task_keep_late_cause`.
abbrev pub keep_late_cause : Task → Task
keep_late_cause s = record s { cause = none; late_cause = first s.late_cause s.cause }

-- `duckdb_task_step`: the first slice, those that follow while the process unwinds, and the exception
-- that a handler raised.
unfoldable pub step : Slice → List Slice → Option ℕ → Task → Task
step slice unwinding raised s =
    let own_causes = is_polling s.mode && not (is_some s.cause) in
    let t = step_slices (slice ∷ unwinding) s in
    let stepped = record t { cause = first s.cause raised } in
    if own_causes then keep_late_cause stepped else stepped

pub data Completed : Type 0 where
  thrown : Error → Completed
  already_consumed returned : Completed

-- `duckdb_pending_complete`: an error leaves the task's exception to the request, unless that keeps one
-- already.
abbrev pub complete_with : Option Error → Task → Task × Completed
complete_with (some e) s =
    (record s { late_cause = none; cause = first s.cause s.late_cause }, thrown e)
complete_with none s = if s.consumed then (record s { late_cause = none }, already_consumed) else (
  record s { late_cause = none; consumed = true; result = false; handed = suc s.handed },
  returned,
)

unfoldable pub complete : Task → Task × Completed
complete s = complete_with s.error s

-- `await` on a polled task, as long as the engine gives slices, each with what its handlers raise.
unfoldable pub await_steps : List (Slice × Option ℕ) → Task → Task
await_steps [] s = s
await_steps ((slice, raised) ∷ slices) s =
    let rest = await_steps slices (step slice [] raised s) in
    if (step slice [] raised s).done then step slice [] raised s else rest

-- `duckdb_task_cancel`, with whether the cancellation thread starts and whether the engine still runs the registered
-- query: the task, and whether the connection is interrupted here. A polled task is cancelled under the
-- lock of the connection, and `duckdb_discard_pending` interrupts its query.
unfoldable pub cancel : Bool → Bool → Task → Task × Bool
cancel starts still_runs s =
    if s.done
    then (s, false)
    else if is_polling s.mode
    then (
      record (destroy_if true s) {
        record_open = false;
        consumed = true;
        error = some interrupted;
        done = true;
      },
      s.record_open && still_runs,
    )
    else if s.cancel_requested
    then (s, false)
    else if starts
    then (record s { cancel_requested = true }, s.worker_running)
    else (s, false)

-- The loop of the cancellation thread: whether a round interrupts the connection.
abbrev pub round_interrupts : Task → Bool
round_interrupts s = not s.done && s.worker_running

-- `~async_task`, on the native result and the registered query.
unfoldable pub drop_task : Task → Task
drop_task s =
    if s.record_open || not s.consumed
    then record (destroy_if (not s.consumed) s) { record_open = false; consumed = true }
    else s

-- The critical sections of the worker and the calls of the request thread, in any order that the
-- threads allow. A completion is called for a task that is done.
pub data Step : Task → Task → Type 0 where
  begins : {s : Task} → s.worker ≡ queued → Step s (begin_run s)
  settles :
      {s : Task} (cancelled : Bool) (outcome : Option Error)
      → s.worker ≡ entered cancelled
      → Step s (settle_run outcome cancelled s)
  publishes : {s : Task} → s.worker ≡ settled → Step s (publish_run s)
  steps :
      {s : Task} (slice : Slice) (unwinding : List Slice) (raised : Option ℕ)
      → Step s (step slice unwinding raised s)
  cancels : {s : Task} (starts still_runs : Bool) → Step s (cancel starts still_runs s).0
  completes : {s : Task} → s.done ≡ true → Step s (complete s).0

pub data Steps : Task → Type 0 where
  threaded : (mode : Mode) → is_polling mode ≡ false → Steps (threaded_task mode)
  polled : Steps polled_task
  after : {s t : Task} → Steps s → Step s t → Steps t
