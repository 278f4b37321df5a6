-- ===== src/Session/Safety.antt =====
-- What holds of a session in every state that its threads can reach.
use php_duckdb.Prelude.{
  ℕ, ◌≤◌, ◌≡◌, inl, inr, sym, ◌∙◌, Bool, true, false, none, some, arith, Bytes, if◌then◌else◌,
  Option-cases,
}
use php_duckdb.Session.{
  served, failed, Request, State, initial, Step, submits, polls, takes, finishes, closes, Steps,
  stay, after,
}
use php_duckdb.Session.Sound.{false≢true, Sound, initial-Sound, close-Sound}
use php_duckdb.Session.Preserved.{begin_submit-Sound, take_front-Sound, finish_work-Sound}
use php_duckdb.Session.Poll.{poll-Sound}

Step-Sound : {s t : State} → Step s t → Sound s → Sound t
Step-Sound {s = s} (submits r new) h = begin_submit-Sound r s new h
Step-Sound {s = s} (polls stuck r submitted unreturned) h = poll-Sound stuck r s submitted h
Step-Sound {s = s} takes h = take_front-Sound s h
Step-Sound {s = s} (finishes r started) h = finish_work-Sound r s started h
Step-Sound {s = s} (closes reason) h = close-Sound reason s h

pub Steps-Sound : {s t : State} → Steps s t → Sound s → Sound t
Steps-Sound stay h = h
Steps-Sound (after before step) h = Step-Sound step (Steps-Sound before h)

-- A request that is running has been told nothing: `served` needs its end, and a failure that it
-- never started.
untold :
    (q : Request)
    → q.started ≡ true
    → q.finished ≡ false
    → (q.returned ≡ some served → q.finished ≡ true)
    → ((reason : Bytes) → q.returned ≡ some (failed reason) → q.started ≡ false)
    → q.returned ≡ none
untold q started unfinished e f = elim (Option-cases q.returned) [
  | inl h ↦ h
  | inr (served, h) ↦ let t = e h in elim (false≢true (sym unfinished ∙ t)) [ ]
  | inr (failed reason, h) ↦ let t = f reason h in elim (false≢true (sym t ∙ started)) [ ]
]

at_most_one : (b : Bool) (n : ℕ) → n ≡ (if b then 1 else 0) → n ≤ 1
at_most_one true n e = omega arith
at_most_one false n e = omega arith

-- In every state a session can reach, the submitter of a request whose work was entered and has not
-- come back has not returned.
pub running-unreturned :
    {s : State} (r : ℕ)
    → Steps initial s
    → (s.requests r).started ≡ true
    → (s.requests r).finished ≡ false
    → (s.requests r).returned ≡ none
running-unreturned {s = s} r steps started unfinished =
    let (o, d, each) = Steps-Sound steps initial-Sound in
    let (a, b, c, e, f, g) = each r in untold (s.requests r) started unfinished e f

-- In every state a session can reach, the work of a request was entered at most once.
runs_once : {s : State} (r : ℕ) → Steps initial s → (s.requests r).runs ≤ 1
runs_once {s = s} r steps =
    let (o, d, each) = Steps-Sound steps initial-Sound in
    let (a, b, c, e, f, g) = each r in at_most_one (s.requests r).started (s.requests r).runs g
