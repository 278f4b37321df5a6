-- ===== src/Helper/Order.antt =====
-- What was posted to a helper is run once, in order.
use php_duckdb.Prelude.{
  ℕ, ◌≡◌, refl, sym, ap, ◌∙◌, Bool, true, false, ◌&&◌, ◌||◌, List, [], ◌∷◌, ◌++◌, append-nil,
  Option, none, some,
}
use php_duckdb.Helper.{
  State, post, take_work, park, Step, posts, takes, parks, leaves, stops, Steps, start, after,
}

-- The work that was posted and has not come back.
abbrev pub in_flight : Option ℕ → Option ℕ → List ℕ
in_flight none none = []
in_flight (some w) none = w ∷ []
in_flight none (some w) = w ∷ []
in_flight (some w) (some x) = w ∷ x ∷ []

abbrev pub is_some : Option ℕ → Bool
is_some none = false
is_some (some w) = true

-- One work at most is handed over or running, exactly while the helper is busy; a helper that left
-- was told to stop and has nothing to do.
abbrev Settled : State → Type 0
Settled s =
    (s.busy ≡ (is_some s.work || is_some s.running))
    × ((is_some s.work && is_some s.running) ≡ false)
    × (s.posted ≡ s.completed ++ in_flight s.work s.running)
    × (s.exited ≡ true → (s.stop ≡ true) × (s.work ≡ none) × (s.running ≡ none))

idle : (a b : Option ℕ) → (is_some a || is_some b) ≡ false → (a ≡ none) × (b ≡ none)
idle none none e = (refl, refl)
idle (some w) b e = cc
idle none (some w) e = cc

only_running :
    (a : Option ℕ) (w : ℕ) (b : Option ℕ) → b ≡ some w → (is_some a && is_some b) ≡ false → a ≡ none
only_running none w b e f = refl
only_running (some x) w none e f = cc
only_running (some x) w (some y) e f = cc

contradiction : {b : Bool} → b ≡ false → b ≡ true → ⊥
contradiction e f = cc

none≢some : {a : Option ℕ} {w : ℕ} → a ≡ none → a ≡ some w → ⊥
none≢some e f = cc

in_flight_eq : {a c b d : Option ℕ} → a ≡ c → b ≡ d → in_flight a b ≡ in_flight c d
in_flight_eq e f = cc

post-Settled :
    (w : ℕ) (s : State) → s.busy ≡ false → s.stop ≡ false → Settled s → Settled (post w s)
post-Settled w s free going (b, o, p, x) =
    let (n, r) = idle s.work s.running (sym b ∙ free) in
    let kept : s.posted ≡ s.completed =
      p ∙ ap (λ (ws : List ℕ). s.completed ++ ws) (in_flight_eq n r) ∙ append-nil s.completed in
    (
      refl,
      ap is_some r,
      ap (λ (ps : List ℕ). ps ++ (w ∷ [])) kept
          ∙ ap (λ (a : Option ℕ). s.completed ++ in_flight (some w) a) (sym r),
      λ h. elim (contradiction going (x h).0) [ ],
    )

take_work-Settled :
    (w : ℕ) (s : State)
    → s.work ≡ some w
    → s.running ≡ none
    → s.exited ≡ false
    → Settled s
    → Settled (take_work w s)
take_work-Settled w s e r going (b, o, p, x) = (
  b ∙ ap (λ (a : Option ℕ). is_some a || is_some s.running) e,
  refl,
  p ∙ ap (λ (ws : List ℕ). s.completed ++ ws) (in_flight_eq e r),
  λ h. elim (contradiction going h) [ ],
)

park-Settled : (w : ℕ) (s : State) → s.running ≡ some w → Settled s → Settled (park w s)
park-Settled w s e (b, o, p, x) =
    let n = only_running s.work w s.running e o in
    let done = s.completed ++ (w ∷ []) in
    (
      sym (ap (λ (a : Option ℕ). is_some a || false) n),
      ap (λ (a : Option ℕ). is_some a && false) n,
      p
          ∙ ap (λ (ws : List ℕ). s.completed ++ ws) (in_flight_eq n e)
          ∙ sym (append-nil done)
          ∙ ap (λ (a : Option ℕ). done ++ in_flight a none) (sym n),
      λ h. elim (none≢some ((x h).2) e) [ ],
    )

Step-Settled : {s t : State} → Step s t → Settled s → Settled t
Step-Settled {s = s} (posts w free going) h = post-Settled w s free going h
Step-Settled {s = s} (takes w e r going) h = take_work-Settled w s e r going h
Step-Settled {s = s} (parks w e) h = park-Settled w s e h
Step-Settled {s = s} (leaves st n r going) (b, o, p, x) = (b, o, p, λ h. (st, n, r))
Step-Settled {s = s} stops (b, o, p, x) = (b, o, p, λ h. (refl, (x h).1, (x h).2))

Steps-Settled : {s : State} → Steps s → Settled s
Steps-Settled start = (refl, refl, refl, λ e. elim (contradiction refl e) [ ])
Steps-Settled (after before step) = Step-Settled step (Steps-Settled before)

-- In every state a helper can reach, the works posted to it are those that came back, in the same
-- order and each once, followed by the one that is handed over or running, if the helper is busy.
pub posted-completed :
    {s : State}
    → Steps s
    → (s.posted ≡ s.completed ++ in_flight s.work s.running)
      × (s.busy ≡ (is_some s.work || is_some s.running))
      × ((is_some s.work && is_some s.running) ≡ false)
posted-completed steps = let (b, o, p, x) = Steps-Settled steps in (p, b, o)

-- A helper whose thread has returned, in a state that it can reach, has completed every work that was
-- posted to it.
pub exited-completed : {s : State} → Steps s → s.exited ≡ true → s.posted ≡ s.completed
exited-completed {s = s} steps h =
    let (b, o, p, x) = Steps-Settled steps in
    let (st, n, r) = x h in
    p ∙ ap (λ (ws : List ℕ). s.completed ++ ws) (in_flight_eq n r) ∙ append-nil s.completed
