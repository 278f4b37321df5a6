-- ===== src/Session/Sound.antt =====
-- The invariant of a session, and what it says of one request.
use php_duckdb.Prelude.{
  ℕ, ◌≡◌, inl, inr, refl, sym, ◌∙◌, Bool, true, false, List, [], none, some, arith, Bytes,
  if◌then◌else◌, Bool-cases,
}
use mathlib.Core.Path.{subst}
use php_duckdb.Session.{
  served, failed, Request, State, initial, fresh, close, entered, completed, returning,
}
use php_duckdb.Session.Queue.{elem, Distinct}

-- A request that is in the queue, or not.
abbrev pub SoundRequest : Bool → Request → Type 0
SoundRequest queued q =
    (queued ≡ true
      → (q.submitted ≡ true) × (q.started ≡ false) × (q.finished ≡ false) × (q.returned ≡ none))
    × (q.submitted ≡ false → q.returned ≡ none)
    × (q.finished ≡ true → q.started ≡ true)
    × (q.returned ≡ some served → q.finished ≡ true)
    × ((reason : Bytes) → q.returned ≡ some (failed reason) → q.started ≡ false)
    × (q.runs ≡ (if q.started then 1 else 0))

pub false≢true : false ≡ true → ⊥
false≢true e = cc

-- A closed session has no queue, an open one a queue of distinct requests, and each request is sound.
abbrev pub Sound : State → Type 0
Sound s =
    (s.opened ≡ false → s.queue ≡ [])
    × Distinct s.queue
    × ((r : ℕ) → SoundRequest (elem r s.queue) (s.requests r))

abbrev Each : List ℕ → (ℕ → Request) → Type 0
Each queue requests = (r : ℕ) → SoundRequest (elem r queue) (requests r)

fresh-Sound : SoundRequest false fresh
fresh-Sound = ((λ e. cc), (λ e. refl), (λ e. cc), (λ e. cc), (λ reason e. refl), refl)

pub initial-Sound : Sound initial
initial-Sound = ((λ e. refl), tt, (λ r. fresh-Sound))

-- A request that leaves the queue, or never stood there, without a change.
pub unqueued : (queued : Bool) (q : Request) → SoundRequest queued q → SoundRequest false q
unqueued queued q (a, b, c, d, e, f) = ((λ x. elim (false≢true x) [ ]), b, c, d, e, f)

pub cleared :
    (s : State) (reason : Bytes)
    → Sound s
    → Sound (record { opened = false; close_reason = reason; queue = []; requests = s.requests })
cleared s reason (o, d, each) =
    ((λ e. refl), tt, (λ r. unqueued (elem r s.queue) (s.requests r) (each r)))

pub close-Sound : (reason : Bytes) (s : State) → Sound s → Sound (close reason s)
unfolding close
close-Sound reason s h = elim (Bool-cases s.opened) [
  | inr f ↦ let e : close reason s ≡ s = ground arith in subst Sound (sym e) h
  | inl t ↦
      let e : close reason s
          ≡ record { opened = false; close_reason = reason; queue = []; requests = s.requests } =
        ground arith in
      subst Sound (sym e) (cleared s reason h)
]

pub entered-Sound : (q : Request) → SoundRequest true q → SoundRequest false (entered q)
entered-Sound q (a, b, c, d, e, f) =
    let (submitted, waiting, unfinished, unreturned) = a refl in
    let none_yet : q.runs ≡ 0 = f ∙ rw waiting in
    ((λ x. elim (false≢true x) [ ]), b, (λ x. refl), d, (λ reason x. cc), omega (arith, none_yet))

pub completed-Sound :
    (queued : Bool) (q : Request)
    → q.started ≡ true
    → SoundRequest queued q
    → SoundRequest queued (completed q)
completed-Sound queued q h (a, b, c, d, e, f) =
    ((λ x. let (_, n, _, _) = a x in cc), b, (λ x. h), (λ x. refl), e, f)

pub served-Sound :
    (queued : Bool) (q : Request)
    → q.finished ≡ true
    → q.submitted ≡ true
    → SoundRequest queued q
    → SoundRequest queued (returning served q)
served-Sound queued q h hsub (a, b, c, d, e, f) =
    ((λ x. let (_, _, n, _) = a x in cc), (λ x. cc), c, (λ x. h), (λ reason x. cc), f)

pub failed-Sound :
    (reason : Bytes) (q : Request)
    → q.started ≡ false
    → q.submitted ≡ true
    → SoundRequest false q
    → SoundRequest false (returning (failed reason) q)
failed-Sound reason q hs hsub (a, b, c, d, e, f) =
    ((λ x. elim (false≢true x) [ ]), (λ x. cc), c, (λ x. cc), (λ reason' x. hs), f)
