-- ===== src/Session.antt =====
-- src/copy_session.cpp: the queue by which threads of the engine hand PHP work to the request thread.
pub mod Queue
pub mod Sound
pub mod Preserved
pub mod Poll
pub mod Safety
pub mod Told
pub mod Started
pub mod Service
mod Tests
use php_duckdb.Prelude.{
  ℕ, zero, suc, ◌+◌, Bool, true, false, not, ◌||◌, List, [], ◌∷◌, ◌++◌, Option, none, some, Bytes,
  codes, ◌==◌, ◌≡◌, if◌then◌else◌,
}

-- What `submit` returned to its thread.
pub data Outcome : Type 0 where
  served : Outcome
  failed : Bytes → Outcome

-- A `copy_request` and its submitter: whether `submit` was called, the two flags, how often the work
-- was entered, and what `submit` returned, if it did.
pub record Request : Type 0 where
  pub submitted : Bool
  pub started : Bool
  pub finished : Bool
  pub runs : ℕ
  pub returned : Option Outcome

-- A `copy_session` with the requests, by their numbers.
pub record State : Type 0 where
  pub opened : Bool
  pub close_reason : Bytes
  pub queue : List ℕ
  pub requests : ℕ → Request

abbrev pub fresh : Request
fresh = record { submitted = false; started = false; finished = false; runs = 0; returned = none }

-- A new session.
abbrev pub initial : State
initial = record { opened = true; close_reason = []; queue = []; requests = λ r. fresh }

abbrev pub update : (ℕ → Request) → ℕ → Request → ℕ → Request
update requests r request k = if k == r then request else requests k

abbrev pub is_empty : List ℕ → Bool
is_empty [] = true
is_empty (r ∷ rs) = false

-- `copy_session::close`.
unfoldable pub close : Bytes → State → State
close reason s =
    if not s.opened
    then s
    else record { opened = false; close_reason = reason; queue = []; requests = s.requests }

abbrev pub entered : Request → Request
entered q = record {
  submitted = q.submitted;
  started = true;
  finished = q.finished;
  runs = q.runs + 1;
  returned = q.returned;
}

abbrev pub completed : Request → Request
completed q = record {
  submitted = q.submitted;
  started = q.started;
  finished = true;
  runs = q.runs;
  returned = q.returned;
}

abbrev pub returning : Outcome → Request → Request
returning outcome q = record {
  submitted = q.submitted;
  started = q.started;
  finished = q.finished;
  runs = q.runs;
  returned = some outcome;
}

-- `submit` up to its loop: refused when the session is closed, queued otherwise.
unfoldable pub begin_submit : ℕ → State → State
begin_submit r s =
    if not s.opened
    then record {
      opened = s.opened;
      close_reason = s.close_reason;
      queue = s.queue;
      requests = update s.requests r (record {
        submitted = true;
        started = false;
        finished = false;
        runs = 0;
        returned = some (failed s.close_reason);
      });
    }
    else record {
      opened = s.opened;
      close_reason = s.close_reason;
      queue = s.queue ++ (r ∷ []);
      requests = update s.requests r (record {
        submitted = true;
        started = false;
        finished = false;
        runs = 0;
        returned = none;
      });
    }

abbrev pub abandoned : Bytes
abandoned = codes "COPY callback abandoned: the driving thread stayed inside DuckDB too long"

-- The submitter of `r` returns.
abbrev pub return_with : Outcome → ℕ → State → State
return_with outcome r s = record {
  opened = s.opened;
  close_reason = s.close_reason;
  queue = s.queue;
  requests = update s.requests r (returning outcome (s.requests r));
}

-- One pass of the loop of `submit`, under the lock; `stuck` says whether the request thread has been
-- away for longer than the limit. A pass that returns nothing waits for the next.
unfoldable pub poll : Bool → ℕ → State → State
poll stuck r s =
    if (s.requests r).finished
    then return_with served r s
    else if (s.requests r).started
    then s
    else if not s.opened
    then return_with (failed s.close_reason) r s
    else if stuck
    then return_with (failed abandoned) r (close abandoned s)
    else s

abbrev pub take_request : State → ℕ → List ℕ → State
take_request s r rest = record {
  opened = s.opened;
  close_reason = s.close_reason;
  queue = rest;
  requests = update s.requests r (entered (s.requests r));
}

abbrev pub take_from : List ℕ → State → State
take_from [] s = s
take_from (r ∷ rest) s = take_request s r rest

-- The first critical section of a round of `service`, which goes on into the work of the request.
unfoldable pub take_front : State → State
take_front s = if not s.opened || is_empty s.queue then s else take_from s.queue s

-- The second: the work has returned.
unfoldable pub finish_work : ℕ → State → State
finish_work r s = record {
  opened = s.opened;
  close_reason = s.close_reason;
  queue = s.queue;
  requests = update s.requests r (completed (s.requests r));
}

-- What the threads do to a session, one critical section at a time. A request is submitted once, its
-- submitter passes its loop until it returned, and work returns after it was entered.
pub data Step : State → State → Type 0 where
  submits : {s : State} (r : ℕ) → (s.requests r).submitted ≡ false → Step s (begin_submit r s)
  polls :
      {s : State} (stuck : Bool) (r : ℕ)
      → (s.requests r).submitted ≡ true
      → (s.requests r).returned ≡ none
      → Step s (poll stuck r s)
  takes : {s : State} → Step s (take_front s)
  finishes : {s : State} (r : ℕ) → (s.requests r).started ≡ true → Step s (finish_work r s)
  closes : {s : State} (reason : Bytes) → Step s (close reason s)

-- Any number of steps.
pub data Steps : State → State → Type 0 where
  stay : {s : State} → Steps s s
  after : {s t u : State} → Steps s t → Step t u → Steps s u

abbrev pub front_of : List ℕ → ℕ
front_of [] = 0
front_of (r ∷ rs) = r

-- What the other threads do to a session while the request thread is in `service` and does not hold the lock:
-- during the work of a request, and behind it.
pub record Others : Type 0 where
  pub during : ℕ → State → State
  pub behind : ℕ → State → State

-- A round of `service` that took a request: its two critical sections and what is done between and behind them.
abbrev pub round : Others → ℕ → State → State
round others r s = others.behind r (finish_work r (others.during r (take_front s)))

-- `service`, by the rounds left: `unwinds r` says whether the process unwinds after the work of `r`.
unfoldable pub service : Others → (ℕ → Bool) → Bytes → ℕ → State → State
service others unwinds reason zero s = s
service others unwinds reason (suc rounds) s =
    let r = front_of s.queue in
    let done = round others r s in
    let next = service others unwinds reason rounds done in
    if not s.opened || is_empty s.queue then s else if unwinds r then close reason done else next
