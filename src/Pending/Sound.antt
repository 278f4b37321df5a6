-- ===== src/Pending/Sound.antt =====
-- The invariant of a task, over every interleaving of its worker and the request thread.
use php_duckdb.Prelude.{
  ℕ, ◌+◌, ◌≡◌, inl, inr, refl, sym, ap, ◌∙◌, Bool, true, false, not, ◌&&◌, List, [], ◌∷◌, Option,
  none, some, arith, if◌then◌else◌, Bool-cases,
}
use php_duckdb.Pending.{
  Error, interrupted, Worker, queued, settled, published, no_worker, entered, Task, is_polling,
  is_some, first, executed, drop_failed, begin_run, settle_run, publish_run, Slice, unfinished,
  no_lease, finished, poll, step_once, step_slices, step,
}
use mathlib.Core.Path.{subst}

abbrev pub Idle : Task → Type 0
Idle s = (s.error ≡ none) × (s.consumed ≡ false) × (s.result ≡ false)

-- The result is consumed exactly if it is no longer there, and an error leaves none.
abbrev pub Answered : Task → Type 0
Answered s = (s.consumed ≡ not s.result) × (is_some s.error ≡ true → s.consumed ≡ true)

abbrev pub Polled : Bool → Task → Type 0
Polled true s = (s.done ≡ false) × Idle s
Polled false s = (s.done ≡ true) × Answered s

abbrev pub Phase : Worker → Task → Type 0
Phase queued s = (s.done ≡ false) × (s.worker_running ≡ false) × (s.record_open ≡ false) × Idle s
Phase (entered cancelled) s =
    (s.done ≡ false) × (s.worker_running ≡ not cancelled) × (s.record_open ≡ false) × Idle s
Phase settled s = (s.done ≡ false) × (s.record_open ≡ false) × Answered s
Phase published s =
    (s.done ≡ true) × (s.worker_running ≡ false) × (s.record_open ≡ false) × Answered s
Phase no_worker s = (s.worker_running ≡ false) × Polled s.record_open s

abbrev pub has_worker : Worker → Bool
has_worker no_worker = false
has_worker queued = true
has_worker settled = true
has_worker published = true
has_worker (entered cancelled) = true

abbrev pub Counts : Task → Type 0
Counts s = s.made ≡ s.released + s.handed + (if s.result then 1 else 0)

abbrev pub Sound : Task → Type 0
Sound s = Phase s.worker s × Counts s × (is_polling s.mode ≡ not (has_worker s.worker))

pub drop_failed-Counts : (s : Task) → Counts s → Counts (drop_failed s)
drop_failed-Counts s h = ground arith

drop_failed-Answered :
    (s : Task)
    → s.consumed ≡ false
    → (is_some s.error ≡ false → s.result ≡ true)
    → Answered (drop_failed s)
drop_failed-Answered s h k = elim (Bool-cases (is_some s.error)) [
  | inl t ↦ ((ground arith), λ x. (ground arith))
  | inr f ↦ let held : s.result ≡ true = k f in ((ground arith), λ x. (ground arith))
]

executed-Counts :
    (outcome : Option Error) (s : Task) → s.result ≡ false → Counts s → Counts (executed outcome s)
executed-Counts outcome s h k = ground arith

mode_at :
    (s : Task) (x : Worker)
    → s.worker ≡ x
    → is_polling s.mode ≡ not (has_worker s.worker)
    → is_polling s.mode ≡ not (has_worker x)
mode_at s x w mode = mode ∙ ap (λ (y : Worker). not (has_worker y)) w

pub begin_run-Sound : (s : Task) → s.worker ≡ queued → Sound s → Sound (begin_run s)
begin_run-Sound s w (phase, counts, mode) =
    let (going, still, closed, idle) = subst (λ (x : Worker). Phase x s) w phase in
    ((going, refl, closed, idle), counts, mode_at s queued w mode)

pub settle_run-Sound :
    (outcome : Option Error) (cancelled : Bool) (s : Task)
    → s.worker ≡ entered cancelled
    → Sound s
    → Sound (settle_run outcome cancelled s)
settle_run-Sound outcome true s w (phase, counts, mode) =
    let (going, _, closed, (fine, kept, none_held)) = subst (λ (x : Worker). Phase x s) w phase in
    let t : Task = record s { error = some interrupted } in
    (
      (going, closed, drop_failed-Answered t kept (λ x. cc)),
      drop_failed-Counts t counts,
      mode_at s (entered true) w mode,
    )
settle_run-Sound outcome false s w (phase, counts, mode) =
    let (going, _, closed, (fine, kept, none_held)) = subst (λ (x : Worker). Phase x s) w phase in
    let t : Task = executed outcome s in
    (
      (going, closed, drop_failed-Answered t kept (λ x. refl)),
      drop_failed-Counts t (executed-Counts outcome s none_held counts),
      mode_at s (entered false) w mode,
    )

pub publish_run-Sound : (s : Task) → s.worker ≡ settled → Sound s → Sound (publish_run s)
publish_run-Sound s w (phase, counts, mode) =
    let (going, closed, answered) = subst (λ (x : Worker). Phase x s) w phase in
    ((refl, refl, closed, answered), counts, mode_at s settled w mode)

-- Only a task without a worker is polled, and it has its query until it is done.
pub without_worker :
    (s : Task)
    → Sound s
    → is_polling s.mode ≡ true
    → (s.worker ≡ no_worker) × (s.worker_running ≡ false) × Polled s.record_open s
without_worker s (phase, counts, mode) p =
    let w : s.worker ≡ no_worker = no_worker_of s.worker (sym mode ∙ p) in
    let (still, shape) = subst (λ (x : Worker). Phase x s) w phase in (w, still, shape)
  where
    no_worker_of : (x : Worker) → not (has_worker x) ≡ true → x ≡ no_worker
    no_worker_of no_worker e = refl
    no_worker_of queued e = cc
    no_worker_of settled e = cc
    no_worker_of published e = cc
    no_worker_of (entered c) e = cc

-- A task whose query has ended.
pub closed-Sound :
    (s t : Task)
    → s.worker ≡ no_worker
    → (t.worker ≡ s.worker)
      × (t.mode ≡ s.mode)
      × (t.worker_running ≡ false)
      × (t.record_open ≡ false)
    → t.done ≡ true
    → Answered t
    → Counts t
    → is_polling s.mode ≡ not (has_worker s.worker)
    → Sound t
closed-Sound s t w (same, modes, still, closed) done answered counts mode = (
  subst (λ (x : Worker). Phase x t) (sym (same ∙ w))
      (still, subst (λ (b : Bool). Polled b t) (sym closed) (done, answered)),
  counts,
  ap is_polling modes ∙ mode ∙ ap (λ (x : Worker). not (has_worker x)) (sym same),
)

poll-Sound :
    (slice : Slice) (s : Task)
    → Sound s
    → is_polling s.mode ≡ true
    → s.record_open ≡ true
    → Sound (poll slice s)
poll-Sound unfinished s h p o = h
poll-Sound (no_lease text) s h p o =
    let (w, still, shape) = without_worker s h p in
    let (going, (fine, kept, none_held)) = subst (λ (b : Bool). Polled b s) o shape in
    closed-Sound s (poll (no_lease text) s) w (refl, refl, still, refl) refl
      (ap not (sym none_held), λ x. refl) h.1 h.2
poll-Sound (finished outcome) s h p o =
    let (w, still, shape) = without_worker s h p in
    let (going, (fine, kept, none_held)) = subst (λ (b : Bool). Polled b s) o shape in
    let t : Task = record (executed outcome s) { record_open = false } in
    closed-Sound s (poll (finished outcome) s) w (refl, refl, still, refl) refl
      (drop_failed-Answered t kept (λ x. refl))
      (drop_failed-Counts t (executed-Counts outcome s none_held h.1)) h.2

if-Sound :
    (b : Bool) (x y : Task)
    → (b ≡ true → Sound x)
    → (b ≡ false → Sound y)
    → Sound (if b then x else y)
if-Sound true x y h k = h refl
if-Sound false x y h k = k refl

step_once-Sound : (slice : Slice) (s : Task) → Sound s → Sound (step_once slice s)
unfolding step_once
step_once-Sound slice s h =
    if-Sound (not (is_polling s.mode)) s _ (λ p. h)
      (λ p.
        if-Sound (not s.record_open) s (poll slice s) (λ o. h)
          (λ o. poll-Sound slice s h (not_false p) (not_false o)))
  where
    not_false : {b : Bool} → not b ≡ false → b ≡ true
    not_false {b = true} e = refl
    not_false {b = false} e = cc

step_slices-Sound : (slices : List Slice) (s : Task) → Sound s → Sound (step_slices slices s)
unfolding step_slices
step_slices-Sound [] s h = h
step_slices-Sound (slice ∷ slices) s h =
    let t : Sound (step_once slice s) = step_once-Sound slice s h in
    if-Sound (step_once slice s).done _ _ (λ x. t)
      (λ x. step_slices-Sound slices (step_once slice s) t)

-- The exceptions that a task keeps, and the request to cancel, do not matter to the rest of it.
abbrev pub aside : Bool → Option ℕ → Option ℕ → Task → Task
aside requested late cause s = record s {
  cancel_requested = requested;
  late_cause = late;
  cause = cause;
}

aside-Polled :
    (b requested : Bool) (late cause : Option ℕ) (s : Task)
    → Polled b s
    → Polled b (aside requested late cause s)
aside-Polled true requested late cause s h = h
aside-Polled false requested late cause s h = h

aside-Phase :
    (x : Worker) (requested : Bool) (late cause : Option ℕ) (s : Task)
    → Phase x s
    → Phase x (aside requested late cause s)
aside-Phase queued requested late cause s h = h
aside-Phase (entered c) requested late cause s h = h
aside-Phase settled requested late cause s h = h
aside-Phase published requested late cause s h = h
aside-Phase no_worker requested late cause s (still, shape) =
    (still, aside-Polled s.record_open requested late cause s shape)

pub aside-Sound :
    (requested : Bool) (late cause : Option ℕ) (s : Task)
    → Sound s
    → Sound (aside requested late cause s)
aside-Sound requested late cause s (phase, counts, mode) =
    (aside-Phase s.worker requested late cause s phase, counts, mode)

pub step-Sound :
    (slice : Slice) (slices : List Slice) (raised : Option ℕ) (s : Task)
    → Sound s
    → Sound (step slice slices raised s)
unfolding step
step-Sound slice slices raised s h =
    let t : Task = step_slices (slice ∷ slices) s in
    let sound : Sound t = step_slices-Sound (slice ∷ slices) s h in
    let raises : Option ℕ = first s.cause raised in
    if-Sound (is_polling s.mode && not (is_some s.cause)) _ _
      (λ x. aside-Sound t.cancel_requested (first t.late_cause raises) none t sound)
      (λ x. aside-Sound t.cancel_requested t.late_cause raises t sound)
