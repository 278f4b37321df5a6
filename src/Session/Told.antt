-- ===== src/Session/Told.antt =====
-- What `submit` has returned is never revised, and agrees with what became of the work.
use php_duckdb.Prelude.{
  ℕ, ◌≡◌, inl, inr, sym, ap, ◌∙◌, Bool, true, false, not, ◌||◌, List, [], ◌∷◌, Option, none, some,
  arith, Bytes, Bool-cases,
}
use mathlib.Core.Path.{subst}
use php_duckdb.Session.{
  Outcome, served, failed, Request, State, initial, update, is_empty, close, entered, completed,
  returning, begin_submit, abandoned, return_with, poll, take_from, take_front, finish_work, Step,
  submits, polls, takes, finishes, closes, Steps, stay, after,
}
use php_duckdb.Session.Sound.{Sound, initial-Sound}
use php_duckdb.Session.Queue.{update-each}
use php_duckdb.Session.Preserved.{begin_submit-closed, begin_submit-opened, refused, waiting}
use php_duckdb.Session.Poll.{
  poll-started, poll-stuck, poll-waits, poll-finished, poll-closed, close-opened, close-closed,
}
use php_duckdb.Session.Safety.{Steps-Sound}

-- What submitters have been told stays told.
Keeps : (ℕ → Request) → (ℕ → Request) → Type 0
Keeps before later =
    (r : ℕ) (outcome : Outcome)
    → (before r).returned ≡ some outcome
    → (later r).returned ≡ some outcome

Keeps-same : (requests : ℕ → Request) → Keeps requests requests
unfolding Keeps
Keeps-same requests r outcome e = e

Keeps-update :
    (requests : ℕ → Request) (k : ℕ) (q : Request)
    → ((outcome : Outcome) → (requests k).returned ≡ some outcome → q.returned ≡ some outcome)
    → Keeps requests (update requests k q)
unfolding Keeps
Keeps-update requests k q told r outcome e =
    update-each (λ n x. (requests n).returned ≡ some outcome → x.returned ≡ some outcome) requests k
      q (told outcome) (λ n other h. h) r e

none≢some : {A : Type 0} (x : Option A) (a : A) → x ≡ none → x ≡ some a → ⊥
none≢some x a e f = cc

Keeps-close : (reason : Bytes) (s : State) → Keeps s.requests (close reason s).requests
Keeps-close reason s = elim (Bool-cases s.opened) [
  | inl t ↦
      subst (λ u. Keeps s.requests u.requests) (sym (close-opened reason s t))
        (Keeps-same s.requests)
  | inr f ↦
      subst (λ u. Keeps s.requests u.requests) (sym (close-closed reason s f))
        (Keeps-same s.requests)
]

Keeps-submit :
    (r : ℕ) (s : State)
    → (s.requests r).returned ≡ none
    → Keeps s.requests (begin_submit r s).requests
Keeps-submit r s new = elim (Bool-cases s.opened) [
  | inl t ↦
      subst (λ u. Keeps s.requests u.requests) (sym (begin_submit-opened r s t))
        (Keeps-update s.requests r waiting
          (λ outcome e. elim (none≢some (s.requests r).returned outcome new e) [ ]))
  | inr f ↦
      subst (λ u. Keeps s.requests u.requests) (sym (begin_submit-closed r s f))
        (Keeps-update s.requests r (refused s.close_reason)
          (λ outcome e. elim (none≢some (s.requests r).returned outcome new e) [ ]))
]

Keeps-take_from : (queue : List ℕ) (s : State) → Keeps s.requests (take_from queue s).requests
Keeps-take_from [] s = Keeps-same s.requests
Keeps-take_from (r ∷ rest) s = Keeps-update s.requests r (entered (s.requests r)) (λ outcome e. e)

Keeps-take_front : (s : State) → Keeps s.requests (take_front s).requests
unfolding take_front
Keeps-take_front s = elim (Bool-cases (not s.opened || is_empty s.queue)) [
  | inl t ↦
      let e : take_front s ≡ s = ground arith in
      subst (λ u. Keeps s.requests u.requests) (sym e) (Keeps-same s.requests)
  | inr f ↦
      let e : take_front s ≡ take_from s.queue s = ground arith in
      subst (λ u. Keeps s.requests u.requests) (sym e) (Keeps-take_from s.queue s)
]

Keeps-finish : (r : ℕ) (s : State) → Keeps s.requests (finish_work r s).requests
unfolding finish_work
Keeps-finish r s = Keeps-update s.requests r (completed (s.requests r)) (λ outcome e. e)

Keeps-return :
    (outcome : Outcome) (r : ℕ) (requests : ℕ → Request)
    → (requests r).returned ≡ none
    → Keeps requests (update requests r (returning outcome (requests r)))
Keeps-return outcome r requests new =
    Keeps-update requests r (returning outcome (requests r))
      (λ other e. elim (none≢some (requests r).returned other new e) [ ])

Keeps-poll-open :
    (stuck : Bool) (r : ℕ) (s : State)
    → (s.requests r).returned ≡ none
    → (s.requests r).finished ≡ false
    → (s.requests r).started ≡ false
    → s.opened ≡ true
    → Keeps s.requests (poll stuck r s).requests
Keeps-poll-open true r s new f g o =
    let e =
      poll-stuck r s f g o ∙ ap (return_with (failed abandoned) r) (close-opened abandoned s o) in
    subst (λ u. Keeps s.requests u.requests) (sym e)
      (Keeps-return (failed abandoned) r s.requests new)
Keeps-poll-open false r s new f g o =
    subst (λ u. Keeps s.requests u.requests) (sym (poll-waits r s f g o)) (Keeps-same s.requests)

Keeps-poll :
    (stuck : Bool) (r : ℕ) (s : State)
    → (s.requests r).returned ≡ none
    → Keeps s.requests (poll stuck r s).requests
Keeps-poll stuck r s new = elim (Bool-cases (s.requests r).finished) [
  | inl t ↦
      subst (λ u. Keeps s.requests u.requests) (sym (poll-finished stuck r s t))
        (Keeps-return served r s.requests new)
  | inr f ↦ elim (Bool-cases (s.requests r).started) [
    | inl t ↦
        subst (λ u. Keeps s.requests u.requests) (sym (poll-started stuck r s f t))
          (Keeps-same s.requests)
    | inr g ↦ elim (Bool-cases s.opened) [
      | inl o ↦ Keeps-poll-open stuck r s new f g o
      | inr c ↦
          subst (λ u. Keeps s.requests u.requests) (sym (poll-closed stuck r s f g c))
            (Keeps-return (failed s.close_reason) r s.requests new)
    ]
  ]
]

Keeps-Step : {s t : State} → Step s t → Sound s → Keeps s.requests t.requests
Keeps-Step {s = s} (submits r new) (o, d, each) =
    let (a, b, c, e, f, g) = each r in Keeps-submit r s (b new)
Keeps-Step {s = s} (polls stuck r submitted unreturned) h = Keeps-poll stuck r s unreturned
Keeps-Step {s = s} takes h = Keeps-take_front s
Keeps-Step {s = s} (finishes r started) h = Keeps-finish r s
Keeps-Step {s = s} (closes reason) h = Keeps-close reason s

Keeps-Steps : {s t : State} → Steps s t → Sound s → Keeps s.requests t.requests
unfolding Keeps
Keeps-Steps stay h r outcome e = e
Keeps-Steps (after before step) h r outcome e =
    Keeps-Step step (Steps-Sound before h) r outcome (Keeps-Steps before h r outcome e)

-- When `submit` has returned a failure, in a state that a session can reach, the work was never
-- entered, and no later step enters it.
pub failed-never_runs :
    {s t : State} (r : ℕ) (reason : Bytes)
    → Steps initial s
    → (s.requests r).returned ≡ some (failed reason)
    → Steps s t
    → (t.requests r).runs ≡ 0
unfolding Keeps
failed-never_runs {s = s} {t = t} r reason before e later =
    let sound = Steps-Sound before initial-Sound in
    let (o, d, each) = Steps-Sound later sound in
    let (a, b, c, h, f, g) = each r in
    let unstarted = f reason (Keeps-Steps later sound r (failed reason) e) in g ∙ rw unstarted

-- When `submit` has returned success, in a state that a session can reach, the work was entered
-- exactly once and has come back.
pub served-ran :
    {s : State} (r : ℕ)
    → Steps initial s
    → (s.requests r).returned ≡ some served
    → ((s.requests r).finished ≡ true) × ((s.requests r).runs ≡ 1)
served-ran {s = s} r before e =
    let (o, d, each) = Steps-Sound before initial-Sound in
    let (a, b, c, h, f, g) = each r in
    let finished = h e in let started = c finished in (finished, g ∙ rw started)
