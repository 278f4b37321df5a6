-- ===== src/Session/Service.antt =====
-- The loop of `service`, by the rounds that are left, with the steps of other threads in between.
use php_duckdb.Prelude.{
  ℕ, zero, suc, ◌+◌, ◌≤◌, ◌≡◌, ◌⊎◌, inl, inr, refl, ap, ◌∙◌, Bool, true, false, not, ◌||◌, List, [],
  ◌∷◌, arith, Bytes, length, if◌then◌else◌, Bool-cases,
}
use php_duckdb.Session.{
  Request, State, initial, update, is_empty, close, entered, completed, take_from, take_front,
  finish_work, takes, finishes, Steps, stay, after, front_of, Others, round, service,
}
use php_duckdb.Session.Queue.{update-same, update-each}
use php_duckdb.Session.Sound.{Sound, initial-Sound}
use php_duckdb.Session.Safety.{Steps-Sound}
use php_duckdb.Session.Started.{entered-stays}
use php_duckdb.Session.Poll.{close-opened, close-closed}

-- The request at the front is entered and leaves the queue.
take_from-started :
    (queue : List ℕ) (s : State)
    → is_empty queue ≡ false
    → ((take_from queue s).requests (front_of queue)).started ≡ true
take_from-started [] s e = cc
take_from-started (r ∷ rest) s e =
    ap (λ (q : Request). q.started) (update-same s.requests r (entered (s.requests r)))

take_front-busy :
    (s : State) → (not s.opened || is_empty s.queue) ≡ false → take_front s ≡ take_from s.queue s
unfolding take_front
take_front-busy s e = ground arith

busy : (a b : Bool) → (not a || b) ≡ false → (a ≡ true) × (b ≡ false)
busy true b e = (refl, e)
busy false b e = cc

resting : (a b : Bool) → (not a || b) ≡ true → (a ≡ false) ⊎ (b ≡ true)
resting true b e = inr e
resting false b e = inl refl

is_empty-nil : (queue : List ℕ) → is_empty queue ≡ true → queue ≡ []
is_empty-nil [] e = refl
is_empty-nil (r ∷ rest) e = cc

-- The requests below a number that were not submitted yet.
abbrev pub unsubmitted : ℕ → (ℕ → Request) → ℕ
unsubmitted zero requests = 0
unsubmitted (suc n) requests = (if (requests n).submitted then 0 else 1) + unsubmitted n requests

unsubmitted-same :
    (n : ℕ) (f g : ℕ → Request)
    → ((r : ℕ) → (f r).submitted ≡ (g r).submitted)
    → unsubmitted n f ≡ unsubmitted n g
unsubmitted-same zero f g h = refl
unsubmitted-same (suc n) f g h = rw (h n, unsubmitted-same n f g h) refl

update-submitted :
    (requests : ℕ → Request) (k : ℕ) (q : Request)
    → q.submitted ≡ (requests k).submitted
    → (r : ℕ) → (update requests k q r).submitted ≡ (requests r).submitted
update-submitted requests k q e =
    update-each (λ n x. x.submitted ≡ (requests n).submitted) requests k q e (λ n other. refl)

-- The calls of `service` that are still needed at most: for what is queued and for what may come.
abbrev pub pending : ℕ → State → ℕ
pending bound s = length s.queue + unsubmitted bound s.requests

pending-take_from :
    (bound : ℕ) (queue : List ℕ) (s : State)
    → s.queue ≡ queue
    → is_empty queue ≡ false
    → suc (pending bound (take_from queue s)) ≡ pending bound s
pending-take_from bound [] s e f = cc
pending-take_from bound (r ∷ rest) s e f =
    let same =
      unsubmitted-same bound (update s.requests r (entered (s.requests r))) s.requests
        (update-submitted s.requests r (entered (s.requests r)) refl) in
    rw (e, same) (omega arith)

pending-finish : (bound r : ℕ) (s : State) → pending bound (finish_work r s) ≡ pending bound s
unfolding finish_work
pending-finish bound r s =
    ap (λ (k : ℕ). length s.queue + k)
      (unsubmitted-same bound (update s.requests r (completed (s.requests r))) s.requests
        (update-submitted s.requests r (completed (s.requests r)) refl))

Steps-join : {s t u : State} → Steps s t → Steps t u → Steps s u
Steps-join a stay = a
Steps-join a (after b step) = after (Steps-join a b) step

either : (P : State → Type 0) (b : Bool) {a c : State} → P a → P c → P (if b then a else c)
either P true ha hc = ha
either P false ha hc = hc

nothing : (queue : List ℕ) → length queue ≤ 0 → queue ≡ []
nothing [] h = refl
nothing (r ∷ rest) h = elim h [ ]

close-empties : (reason : Bytes) (s : State) → Sound s → (close reason s).queue ≡ []
close-empties reason s (o, d, each) = elim (Bool-cases s.opened) [
  | inl t ↦ ap (λ (u : State). u.queue) (close-opened reason s t)
  | inr f ↦ ap (λ (u : State). u.queue) (close-closed reason s f) ∙ o f
]

-- The other threads do steps of a session.
pub record AreSteps (others : Others) : Type 0 where
  pub during_steps : (r : ℕ) (s : State) → Steps s (others.during r s)
  pub behind_steps : (r : ℕ) (s : State) → Steps s (others.behind r s)

-- The other threads queue only requests below a bound that were not submitted before.
pub record AreBounded (bound : ℕ) (others : Others) : Type 0 where
  pub during_bounded : (r : ℕ) (s : State) → pending bound (others.during r s) ≤ pending bound s
  pub behind_bounded : (r : ℕ) (s : State) → pending bound (others.behind r s) ≤ pending bound s

module _ (others : Others) (steps : AreSteps others) where
  -- A round does nothing, unwinds, or goes on to the next round.
  service-rests :
      (unwinds : ℕ → Bool) (reason : Bytes) (rounds : ℕ) (s : State)
      → (not s.opened || is_empty s.queue) ≡ true
      → service others unwinds reason (suc rounds) s ≡ s
  unfolding service
  service-rests unwinds reason rounds s e = rw e

  service-works :
      (unwinds : ℕ → Bool) (reason : Bytes) (rounds : ℕ) (s : State)
      → (not s.opened || is_empty s.queue) ≡ false
      → service others unwinds reason (suc rounds) s ≡ (
          if unwinds (front_of s.queue)
          then close reason (round others (front_of s.queue) s)
          else service others unwinds reason rounds (round others (front_of s.queue) s))
  unfolding service
  service-works unwinds reason rounds s e = rw e

  service-zero :
      (unwinds : ℕ → Bool) (reason : Bytes) (s : State) → service others unwinds reason 0 s ≡ s
  unfolding service
  service-zero unwinds reason s = refl

  round-Steps :
      (s : State)
      → Steps initial s
      → (not s.opened || is_empty s.queue) ≡ false
      → Steps s (round others (front_of s.queue) s)
  round-Steps s before e =
      let r = front_of s.queue in
      let (o, b) = busy s.opened (is_empty s.queue) e in
      let began : ((take_front s).requests r).started ≡ true =
        ap (λ (u : State). (u.requests r).started) (take_front-busy s e)
        ∙ take_from-started s.queue s b in
      let middle = steps.during_steps r (take_front s) in
      let still = entered-stays r (after before takes) middle began in
      Steps-join (after (Steps-join (after stay takes) middle) (finishes r still))
        (steps.behind_steps r (finish_work r (others.during r (take_front s))))

  round-pending :
      (bound : ℕ) (s : State)
      → AreBounded bound others
      → (not s.opened || is_empty s.queue) ≡ false
      → suc (pending bound (round others (front_of s.queue) s)) ≤ pending bound s
  round-pending bound s bounded e =
      let r = front_of s.queue in
      let (o, b) = busy s.opened (is_empty s.queue) e in
      let taken : suc (pending bound (take_front s)) ≡ pending bound s =
        ap (λ (u : State). suc (pending bound u)) (take_front-busy s e)
        ∙ pending-take_from bound s.queue s refl b in
      let worked = bounded.during_bounded r (take_front s) in
      let finished = pending-finish bound r (others.during r (take_front s)) in
      let left = bounded.behind_bounded r (finish_work r (others.during r (take_front s))) in
      omega (arith, taken, worked, finished, left)

  -- From a state that a session can reach, and with at least as many rounds as there are requests in the queue and
  -- requests that the other threads may still submit, `service` leaves an empty queue, whichever of the works
  -- make the process unwind, and whatever steps the other threads do during the works and between the rounds.
  pub service-empties :
      (bound : ℕ) (unwinds : ℕ → Bool) (reason : Bytes) (rounds : ℕ) (s : State)
      → AreBounded bound others
      → Steps initial s
      → pending bound s ≤ rounds
      → (service others unwinds reason rounds s).queue ≡ []
  service-empties bound unwinds reason zero s bounded before h =
      ap (λ (u : State). u.queue) (service-zero unwinds reason s) ∙ nothing s.queue (omega arith)
  service-empties bound unwinds reason (suc rounds) s bounded before h =
      elim (Bool-cases (not s.opened || is_empty s.queue)) [
        | inl t ↦
            ap (λ (u : State). u.queue) (service-rests unwinds reason rounds s t)
            ∙ elim (resting s.opened (is_empty s.queue) t) [
              | inl c ↦ (Steps-Sound before initial-Sound).0 c
              | inr e ↦ is_empty-nil s.queue e
            ]
        | inr f ↦
            let done = round others (front_of s.queue) s in
            let reached = Steps-join before (round-Steps s before f) in
            let shorter = round-pending bound s bounded f in
            ap (λ (u : State). u.queue) (service-works unwinds reason rounds s f)
            ∙ either (λ u. u.queue ≡ []) (unwinds (front_of s.queue))
                (close-empties reason done (Steps-Sound reached initial-Sound))
                (service-empties bound unwinds reason rounds done bounded reached
                  (omega (arith, shorter)))
      ]
