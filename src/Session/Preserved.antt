-- ===== src/Session/Preserved.antt =====
-- Every operation of a session preserves its invariant.
use php_duckdb.Prelude.{
  ℕ, ◌≡◌, inl, inr, refl, sym, ap, ◌∙◌, true, false, not, ◌||◌, List, [], ◌∷◌, ◌++◌, none, some,
  arith, Bytes, ◌==◌, Bool-cases,
}
use mathlib.Core.List.{cons-ne-nil}
use mathlib.Core.Path.{subst}
use php_duckdb.Session.{
  served, failed, Request, State, update, is_empty, entered, completed, returning, begin_submit,
  return_with, take_from, take_front, finish_work,
}
use php_duckdb.Session.Queue.{
  elem, Distinct, elem-snoc-other, elem-snoc-same, Distinct-snoc, update-each, same_number,
}
use php_duckdb.Session.Sound.{
  SoundRequest, Sound, false≢true, unqueued, entered-Sound, completed-Sound, served-Sound,
  failed-Sound,
}

-- A state in which the request `r` and the queue have changed.
abbrev pub changed : State → List ℕ → ℕ → Request → State
changed s queue r q = record {
  opened = s.opened;
  close_reason = s.close_reason;
  queue = queue;
  requests = update s.requests r q;
}

changed-Sound :
    (s : State) (queue : List ℕ) (r : ℕ) (q : Request)
    → (s.opened ≡ false → queue ≡ [])
    → Distinct queue
    → SoundRequest (elem r queue) q
    → ((k : ℕ) → (k == r) ≡ false → SoundRequest (elem k queue) (s.requests k))
    → Sound (changed s queue r q)
changed-Sound s queue r q o d new others =
    (o, d, update-each (λ k x. SoundRequest (elem k queue) x) s.requests r q new others)

abbrev pub refused : Bytes → Request
refused reason = record {
  submitted = true;
  started = false;
  finished = false;
  runs = 0;
  returned = some (failed reason);
}

abbrev pub waiting : Request
waiting = record { submitted = true; started = false; finished = false; runs = 0; returned = none }

refused-Sound : (reason : Bytes) → SoundRequest false (refused reason)
refused-Sound reason =
    ((λ e. elim (false≢true e) [ ]), (λ e. cc), (λ e. cc), (λ e. cc), (λ reason e. refl), refl)

waiting-Sound : SoundRequest true waiting
waiting-Sound =
    ((λ e. (refl, refl, refl, refl)), (λ e. refl), (λ e. cc), (λ e. cc), (λ reason e. refl), refl)

-- A request that was not submitted is not in the queue.
new_number :
    (s : State) (r : ℕ) → Sound s → (s.requests r).submitted ≡ false → elem r s.queue ≡ false
new_number s r (o, d, each) new = elim (Bool-cases (elem r s.queue)) [
  | inr f ↦ f
  | inl t ↦ let (a, _, _, _, _, _) = each r in let (b, _, _, _) = a t in cc
]

pub begin_submit-closed :
    (r : ℕ) (s : State)
    → s.opened ≡ false
    → begin_submit r s ≡ changed s s.queue r (refused s.close_reason)
unfolding begin_submit
begin_submit-closed r s e = ground arith

pub begin_submit-opened :
    (r : ℕ) (s : State)
    → s.opened ≡ true
    → begin_submit r s ≡ changed s (s.queue ++ (r ∷ [])) r waiting
unfolding begin_submit
begin_submit-opened r s e = ground arith

pub begin_submit-Sound :
    (r : ℕ) (s : State) → (s.requests r).submitted ≡ false → Sound s → Sound (begin_submit r s)
begin_submit-Sound r s new (o, d, each) =
    let absent = new_number s r (o, d, each) new in
    elim (Bool-cases s.opened) [
      | inr f ↦ subst Sound (sym (begin_submit-closed r s f)) (
          changed-Sound s s.queue r (refused s.close_reason) o d
            (subst (λ b. SoundRequest b (refused s.close_reason)) (sym absent)
              (refused-Sound s.close_reason))
            (λ k other. each k))
      | inl t ↦ subst Sound (sym (begin_submit-opened r s t)) (
          changed-Sound s (s.queue ++ (r ∷ [])) r waiting (λ e. cc)
            (Distinct-snoc r s.queue absent d)
            (subst (λ b. SoundRequest b waiting) (sym (elem-snoc-same r s.queue)) waiting-Sound)
            (λ k other.
              subst (λ b. SoundRequest b (s.requests k)) (sym (elem-snoc-other k r s.queue other))
                (each k)))
    ]

-- The queue without its first request.
rest_of :
    (k r : ℕ) (rest : List ℕ) (q : Request)
    → (k == r) ≡ false
    → SoundRequest (elem k (r ∷ rest)) q
    → SoundRequest (elem k rest) q
rest_of k r rest q other h =
    let e : elem k (r ∷ rest) ≡ elem k rest = rw other in subst (λ b. SoundRequest b q) e h

first-waits :
    (r : ℕ) (rest : List ℕ) (q : Request) → SoundRequest (elem r (r ∷ rest)) q → SoundRequest true q
first-waits r rest q h =
    let e : elem r (r ∷ rest) ≡ true = rw (same_number r) in subst (λ b. SoundRequest b q) e h

take_from-Sound :
    (s : State) (queue : List ℕ) → s.queue ≡ queue → Sound s → Sound (take_from queue s)
take_from-Sound s [] e h = h
take_from-Sound s (r ∷ rest) e (o, d, each) =
    let (absent, d') = subst Distinct e d in
    let each' : (k : ℕ) → SoundRequest (elem k (r ∷ rest)) (s.requests k) =
      λ k. subst (λ (queue : List ℕ). SoundRequest (elem k queue) (s.requests k)) e (each k) in
    changed-Sound s rest r (entered (s.requests r))
      (λ c. elim (cons-ne-nil r rest (sym e ∙ o c)) [ ]) d'
      (subst (λ b. SoundRequest b (entered (s.requests r))) (sym absent)
        (entered-Sound (s.requests r) (first-waits r rest (s.requests r) (each' r))))
      (λ k other. rest_of k r rest (s.requests k) other (each' k))

pub take_front-Sound : (s : State) → Sound s → Sound (take_front s)
unfolding take_front
take_front-Sound s h = elim (Bool-cases (not s.opened || is_empty s.queue)) [
  | inl t ↦ let e : take_front s ≡ s = ground arith in subst Sound (sym e) h
  | inr f ↦
      let e : take_front s ≡ take_from s.queue s = ground arith in
      subst Sound (sym e) (take_from-Sound s s.queue refl h)
]

pub finish_work-Sound :
    (r : ℕ) (s : State) → (s.requests r).started ≡ true → Sound s → Sound (finish_work r s)
unfolding finish_work
finish_work-Sound r s started (o, d, each) =
    changed-Sound s s.queue r (completed (s.requests r)) o d
      (completed-Sound (elem r s.queue) (s.requests r) started (each r)) (λ k other. each k)

pub return_served-Sound :
    (r : ℕ) (s : State)
    → (s.requests r).finished ≡ true
    → (s.requests r).submitted ≡ true
    → Sound s
    → Sound (return_with served r s)
return_served-Sound r s finished submitted (o, d, each) =
    changed-Sound s s.queue r (returning served (s.requests r)) o d
      (served-Sound (elem r s.queue) (s.requests r) finished submitted (each r)) (λ k other. each k)

pub return_failed-Sound :
    (reason : Bytes) (r : ℕ) (s : State)
    → s.queue ≡ []
    → (s.requests r).started ≡ false
    → (s.requests r).submitted ≡ true
    → Sound s
    → Sound (return_with (failed reason) r s)
return_failed-Sound reason r s empty started submitted (o, d, each) =
    let absent : elem r s.queue ≡ false = ap (elem r) empty in
    changed-Sound s s.queue r (returning (failed reason) (s.requests r)) o d
      (subst (λ b. SoundRequest b (returning (failed reason) (s.requests r))) (sym absent)
        (failed-Sound reason (s.requests r) started submitted
          (unqueued (elem r s.queue) (s.requests r) (each r))))
      (λ k other. each k)
