-- ===== src/Helper.antt =====
-- src/copy_session.cpp, `conn_helper`: the thread that runs one connection's work.
pub mod Order
mod Tests
use php_duckdb.Prelude.{ℕ, Bool, true, false, not, List, [], ◌∷◌, ◌++◌, Option, none, some, ◌≡◌}

-- A `conn_helper`: the work that was handed over, the work that the thread has moved out and runs, the
-- two flags, whether the thread has returned, and the works posted and completed so far, in order.
pub record State : Type 0 where
  pub work : Option ℕ
  pub running : Option ℕ
  pub busy : Bool
  pub stop : Bool
  pub exited : Bool
  pub posted : List ℕ
  pub completed : List ℕ

abbrev pub started : State
started = record {
  work = none;
  running = none;
  busy = false;
  stop = false;
  exited = false;
  posted = [];
  completed = [];
}

-- `helper_post`, once its wait has ended.
abbrev pub post : ℕ → State → State
post w s = record s { work = some w; busy = true; posted = s.posted ++ (w ∷ []) }

-- `helper_main` moves the work `w` out and unlocks.
abbrev pub take_work : ℕ → State → State
take_work w s = record s { work = none; running = some w }

-- `helper_main` has the lock again after the work.
abbrev pub park : ℕ → State → State
park w s = record s { running = none; busy = false; completed = s.completed ++ (w ∷ []) }

-- `helper_main` returns.
abbrev pub leave : State → State
leave s = record s { exited = true }

-- `duckdb_conn_helper_stop` sets its flag.
abbrev pub request_stop : State → State
request_stop s = record s { stop = true }

-- The critical sections, each with the condition under which the thread gets to it. Work is posted
-- while the connection is open, thus before the flag is set.
pub data Step : State → State → Type 0 where
  posts : {s : State} (w : ℕ) → s.busy ≡ false → s.stop ≡ false → Step s (post w s)
  takes :
      {s : State} (w : ℕ)
      → s.work ≡ some w
      → s.running ≡ none
      → s.exited ≡ false
      → Step s (take_work w s)
  parks : {s : State} (w : ℕ) → s.running ≡ some w → Step s (park w s)
  leaves :
      {s : State}
      → s.stop ≡ true
      → s.work ≡ none
      → s.running ≡ none
      → s.exited ≡ false
      → Step s (leave s)
  stops : {s : State} → Step s (request_stop s)

pub data Steps : State → Type 0 where
  start : Steps started
  after : {s t : State} → Steps s → Step s t → Steps t
