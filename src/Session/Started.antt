-- ===== src/Session/Started.antt =====
-- Requests whose work was entered, over the steps of all threads.
use php_duckdb.Prelude.{
  ℕ, ◌≡◌, inl, inr, refl, sym, ap, ◌∙◌, Bool, true, false, not, ◌||◌, List, [], ◌∷◌, arith, Bytes,
  Bool-cases,
}
use mathlib.Core.Path.{subst}
use php_duckdb.Session.{
  Outcome, served, failed, Request, State, initial, update, is_empty, close, entered, completed,
  returning, begin_submit, abandoned, return_with, poll, take_from, take_front, finish_work, Step,
  submits, polls, takes, finishes, closes, Steps, stay, after,
}
use php_duckdb.Session.Sound.{Sound, initial-Sound}
use php_duckdb.Session.Queue.{elem, update-each, same_number}
use php_duckdb.Session.Preserved.{begin_submit-closed, begin_submit-opened, refused, waiting}
use php_duckdb.Session.Poll.{
  poll-started, poll-stuck, poll-waits, poll-finished, poll-closed, close-opened, close-closed,
}
use php_duckdb.Session.Safety.{Steps-Sound}

-- Work that was entered belongs to a request that was submitted.
abbrev pub Begun : Request → Type 0
Begun q = q.started ≡ true → q.submitted ≡ true

-- A change of a request after which it is entered if it was.
abbrev pub StaysRequest : Request → Request → Type 0
StaysRequest q p = Begun q → Begun p × (q.started ≡ true → p.started ≡ true)

unfoldable pub Stays : (ℕ → Request) → (ℕ → Request) → Type 0
Stays before later = (r : ℕ) → StaysRequest (before r) (later r)

Stays-same : (requests : ℕ → Request) → Stays requests requests
unfolding Stays
Stays-same requests r b = (b, λ e. e)

Stays-update :
    (requests : ℕ → Request) (k : ℕ) (q : Request)
    → StaysRequest (requests k) q
    → Stays requests (update requests k q)
unfolding Stays
Stays-update requests k q change r =
    update-each (λ n x. StaysRequest (requests n) x) requests k q change (λ n other b. (b, λ e. e))
      r

Stays-eq :
    (s : State) {t u : State} → t ≡ u → Stays s.requests u.requests → Stays s.requests t.requests
Stays-eq s e h = subst (λ (v : State). Stays s.requests v.requests) (sym e) h

Stays-close : (reason : Bytes) (s : State) → Stays s.requests (close reason s).requests
Stays-close reason s = elim (Bool-cases s.opened) [
  | inl t ↦ Stays-eq s (close-opened reason s t) (Stays-same s.requests)
  | inr f ↦ Stays-eq s (close-closed reason s f) (Stays-same s.requests)
]

unbegun : (q : Request) (p : Request) → p.started ≡ false → q.submitted ≡ false → StaysRequest q p
unbegun q p f u b = ((λ e. cc), (λ e. let h = b e in cc))

Stays-submit :
    (r : ℕ) (s : State)
    → (s.requests r).submitted ≡ false
    → Stays s.requests (begin_submit r s).requests
Stays-submit r s new = elim (Bool-cases s.opened) [
  | inl t ↦
      Stays-eq s (begin_submit-opened r s t)
        (Stays-update s.requests r waiting (unbegun (s.requests r) waiting refl new))
  | inr f ↦ Stays-eq s (begin_submit-closed r s f) (
      Stays-update s.requests r (refused s.close_reason)
        (unbegun (s.requests r) (refused s.close_reason) refl new))
]

Stays-take_from :
    (queue : List ℕ) (s : State)
    → ((r : ℕ) → elem r queue ≡ true → (s.requests r).submitted ≡ true)
    → Stays s.requests (take_from queue s).requests
Stays-take_from [] s h = Stays-same s.requests
Stays-take_from (r ∷ rest) s h =
    let queued : elem r (r ∷ rest) ≡ true = rw (same_number r) in
    let known = h r queued in
    Stays-update s.requests r (entered (s.requests r)) (λ b. ((λ e. known), (λ e. refl)))

Stays-take_front :
    (s : State)
    → ((r : ℕ) → elem r s.queue ≡ true → (s.requests r).submitted ≡ true)
    → Stays s.requests (take_front s).requests
unfolding take_front
Stays-take_front s h = elim (Bool-cases (not s.opened || is_empty s.queue)) [
  | inl t ↦ let e : take_front s ≡ s = ground arith in Stays-eq s e (Stays-same s.requests)
  | inr f ↦
      let e : take_front s ≡ take_from s.queue s = ground arith in
      Stays-eq s e (Stays-take_from s.queue s h)
]

Stays-return :
    (outcome : Outcome) (r : ℕ) (s : State) → Stays s.requests (return_with outcome r s).requests
Stays-return outcome r s =
    Stays-update s.requests r (returning outcome (s.requests r)) (λ b. (b, λ e. e))

Stays-poll-open :
    (stuck : Bool) (r : ℕ) (s : State)
    → (s.requests r).finished ≡ false
    → (s.requests r).started ≡ false
    → s.opened ≡ true
    → Stays s.requests (poll stuck r s).requests
Stays-poll-open true r s f g o =
    let e =
      poll-stuck r s f g o ∙ ap (return_with (failed abandoned) r) (close-opened abandoned s o) in
    Stays-eq s e
      (Stays-update s.requests r (returning (failed abandoned) (s.requests r)) (λ b. (b, λ e. e)))
Stays-poll-open false r s f g o = Stays-eq s (poll-waits r s f g o) (Stays-same s.requests)

Stays-poll : (stuck : Bool) (r : ℕ) (s : State) → Stays s.requests (poll stuck r s).requests
Stays-poll stuck r s = elim (Bool-cases (s.requests r).finished) [
  | inl t ↦ Stays-eq s (poll-finished stuck r s t) (Stays-return served r s)
  | inr f ↦ elim (Bool-cases (s.requests r).started) [
    | inl t ↦ Stays-eq s (poll-started stuck r s f t) (Stays-same s.requests)
    | inr g ↦ elim (Bool-cases s.opened) [
      | inl o ↦ Stays-poll-open stuck r s f g o
      | inr c ↦ Stays-eq s (poll-closed stuck r s f g c) (Stays-return (failed s.close_reason) r s)
    ]
  ]
]

Stays-Step : {s t : State} → Step s t → Sound s → Stays s.requests t.requests
Stays-Step {s = s} (submits r new) h = Stays-submit r s new
Stays-Step {s = s} (polls stuck r submitted unreturned) h = Stays-poll stuck r s
Stays-Step {s = s} takes (o, d, each) = Stays-take_front s (λ r queued. ((each r).0 queued).0)
Stays-Step {s = s} (finishes r started) h =
    unfold finish_work in Stays-update s.requests r (completed (s.requests r)) (λ b. (b, λ e. e))
Stays-Step {s = s} (closes reason) h = Stays-close reason s

pub Stays-Steps : {s t : State} → Steps s t → Sound s → Stays s.requests t.requests
unfolding Stays
Stays-Steps stay h r b = (b, λ e. e)
Stays-Steps (after before step) h r b =
    let (c, f) = Stays-Steps before h r b in
    let (d, g) = Stays-Step step (Steps-Sound before h) r c in (d, λ e. g (f e))

-- In a state that a session can reach, entered work stays entered.
pub entered-stays :
    {s t : State} (r : ℕ)
    → Steps initial s
    → Steps s t
    → (s.requests r).started ≡ true
    → (t.requests r).started ≡ true
unfolding Stays
entered-stays {s = s} r before later e =
    let (b, f) = Stays-Steps before initial-Sound r (λ h. cc) in
    (Stays-Steps later (Steps-Sound before initial-Sound) r b).1 e
