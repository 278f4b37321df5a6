-- ===== src/Session/Poll.antt =====
-- One pass of the loop of `submit`, by the flags of its request, and the invariant.
use php_duckdb.Prelude.{
  ℕ, ◌≡◌, inl, inr, refl, sym, ap, ◌∙◌, Bool, true, false, [], arith, Bytes, Bool-cases,
}
use mathlib.Core.Path.{subst}
use php_duckdb.Session.{served, failed, State, close, abandoned, return_with, poll}
use php_duckdb.Session.Sound.{Sound, cleared}
use php_duckdb.Session.Preserved.{return_served-Sound, return_failed-Sound}

-- What one pass of the loop of `submit` does, by the flags of its request.
pub poll-finished :
    (stuck : Bool) (r : ℕ) (s : State)
    → (s.requests r).finished ≡ true
    → poll stuck r s ≡ return_with served r s
unfolding poll
poll-finished stuck r s e = ground arith

pub poll-started :
    (stuck : Bool) (r : ℕ) (s : State)
    → (s.requests r).finished ≡ false
    → (s.requests r).started ≡ true
    → poll stuck r s ≡ s
unfolding poll
poll-started stuck r s e f = ground arith

pub poll-closed :
    (stuck : Bool) (r : ℕ) (s : State)
    → (s.requests r).finished ≡ false
    → (s.requests r).started ≡ false
    → s.opened ≡ false
    → poll stuck r s ≡ return_with (failed s.close_reason) r s
unfolding poll
poll-closed stuck r s e f g = ground arith

pub poll-stuck :
    (r : ℕ) (s : State)
    → (s.requests r).finished ≡ false
    → (s.requests r).started ≡ false
    → s.opened ≡ true
    → poll true r s ≡ return_with (failed abandoned) r (close abandoned s)
unfolding poll
poll-stuck r s e f g = rw (e, f, g) refl

pub poll-waits :
    (r : ℕ) (s : State)
    → (s.requests r).finished ≡ false
    → (s.requests r).started ≡ false
    → s.opened ≡ true
    → poll false r s ≡ s
unfolding poll
poll-waits r s e f g = ground arith

pub close-opened :
    (reason : Bytes) (s : State)
    → s.opened ≡ true
    → close reason s
      ≡ record { opened = false; close_reason = reason; queue = []; requests = s.requests }
unfolding close
close-opened reason s e = ground arith

pub close-closed : (reason : Bytes) (s : State) → s.opened ≡ false → close reason s ≡ s
unfolding close
close-closed reason s e = ground arith

poll_waiting-Sound :
    (stuck : Bool) (r : ℕ) (s : State)
    → (s.requests r).submitted ≡ true
    → (s.requests r).finished ≡ false
    → (s.requests r).started ≡ false
    → Sound s
    → Sound (poll stuck r s)
poll_waiting-Sound stuck r s submitted f g h = elim (Bool-cases s.opened) [
  | inr c ↦
      subst Sound (sym (poll-closed stuck r s f g c))
        (return_failed-Sound s.close_reason r s (h.0 c) g submitted h)
  | inl o ↦ elim (Bool-cases stuck) [
    | inl t ↦
        let closed = close-opened abandoned s o in
        let kept : State = record {
          opened = false;
          close_reason = abandoned;
          queue = [];
          requests = s.requests;
        } in
        let e : poll stuck r s ≡ return_with (failed abandoned) r kept =
          ap (λ (b : Bool). poll b r s) t
          ∙ poll-stuck r s f g o
          ∙ ap (return_with (failed abandoned) r) closed in
        subst Sound (sym e)
          (return_failed-Sound abandoned r kept refl g submitted (cleared s abandoned h))
    | inr w ↦
        let e : poll stuck r s ≡ s = ap (λ (b : Bool). poll b r s) w ∙ poll-waits r s f g o in
        subst Sound (sym e) h
  ]
]

pub poll-Sound :
    (stuck : Bool) (r : ℕ) (s : State)
    → (s.requests r).submitted ≡ true
    → Sound s
    → Sound (poll stuck r s)
poll-Sound stuck r s submitted h = elim (Bool-cases (s.requests r).finished) [
  | inl t ↦ subst Sound (sym (poll-finished stuck r s t)) (return_served-Sound r s t submitted h)
  | inr f ↦ elim (Bool-cases (s.requests r).started) [
    | inl t ↦ subst Sound (sym (poll-started stuck r s f t)) h
    | inr g ↦ poll_waiting-Sound stuck r s submitted f g h
  ]
]
