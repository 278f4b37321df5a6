-- ===== src/Appender/Simulation.antt =====
-- The native appender behind an appender object.
use php_duckdb.Prelude.{
  ◌≡◌, refl, Bool, true, false, [], ◌∷◌, Option, none, some, arith, if◌then◌else◌,
}
use php_duckdb.Appender.{
  State, Call, clear, Error, Env, Done, refuse, unless, appender_get, fail, native_call,
}
use php_duckdb.Appender.Protocol.{Native, is_live, allowed, advance, break, follow}

-- What the flags of the object say of the native appender.
abbrev pub Sim : State → Native → Type 0
Sim s n =
    (n.gone ≡ false)
    × (n.broken ≡ true → s.failed ≡ true)
    × (n.uncleared ≡ true → s.failed ≡ true)
    × (s.closed ≡ false → n.ended ≡ false)
    × (s.closed ≡ false → s.failed ≡ false → n.row ≡ s.row_open)

-- A method keeps to the protocol, and leaves the object in agreement with the native appender.
abbrev pub Refines : Native → Done → Type 0
Refines n d = (n' : Native) × (follow d.calls n ≡ some n') × Sim d.after n'

pub refuse-Refines : (s : State) (n : Native) (e : Error) → Sim s n → Refines n (refuse s e)
unfolding follow
refuse-Refines s n e h = (n, refl, h)

pub unless-Refines :
    (check : Option Error) (s : State) (n : Native) (d : Done)
    → Sim s n
    → (check ≡ none → Refines n d)
    → Refines n (unless check s d)
unless-Refines none s n d h k = k refl
unless-Refines (some e) s n d h k = refuse-Refines s n e h

pub if-Refines :
    (b : Bool) (n : Native) (d e : Done)
    → (b ≡ true → Refines n d)
    → (b ≡ false → Refines n e)
    → Refines n (if b then d else e)
if-Refines true n d e p q = p refl
if-Refines false n d e p q = q refl

pub fail-Sim : (s : State) (n : Native) (call : Call) → Sim s n → Sim (fail s) (break call n)
fail-Sim s n clear (g, b, u, e, r) = (g, (λ x. refl), (λ x. refl), e, (λ c x. cc))
fail-Sim s n _ (g, b, u, e, r) = (g, (λ x. refl), (λ x. refl), e, (λ c x. cc))

pub follow-one :
    (call : Call) (answer : Bool) (n : Native)
    → allowed call n ≡ true
    → follow ((call, answer) ∷ []) n ≡ some (if answer then advance call n else break call n)
unfolding follow
follow-one call answer n e = rw e

-- A native call that is in order, by its answer.
pub native_call-Refines :
    (call : Call) (answer : Bool) (s next : State) (n : Native)
    → allowed call n ≡ true
    → Sim (fail s) (break call n)
    → Sim next (advance call n)
    → Refines n (native_call call answer s next)
native_call-Refines call true s next n e h k = (advance call n, follow-one call true n e, k)
native_call-Refines call false s next n e h k = (break call n, follow-one call false n e, h)

pub refuted : (a b : Bool) → (a ≡ true → b ≡ true) → b ≡ false → a ≡ false
refuted false b h e = refl
refuted true b h e = elim (clash (h refl) e) [ ]
  where
    clash : b ≡ true → b ≡ false → ⊥
    clash x y = cc

pub live-Sim :
    (s : State) (n : Native) → Sim s n → s.closed ≡ false → s.failed ≡ false → is_live n ≡ true
live-Sim s n (g, b, u, x, r) closed failed = rw (refuted n.broken s.failed b failed, x closed, g)

pub nothing-Refines :
    (s : State) (n : Native) (thrown : Option Error)
    → Sim s n
    → Refines n (record { after = s; thrown = thrown; calls = [] })
unfolding follow
nothing-Refines s n thrown h = (n, refl, h)

-- An object that `appender_get` passes has a live native appender, with a row open or not as it says.
pub appender_get-live :
    (env : Env) (s : State) (n : Native)
    → appender_get env s ≡ none
    → Sim s n
    → (is_live n ≡ true) × (n.row ≡ s.row_open) × (s.closed ≡ false) × (s.failed ≡ false)
unfolding appender_get
appender_get-live env s n e (g, b, u, x, r) =
    let closed : s.closed ≡ false = ground arith in
    let failed : s.failed ≡ false = ground arith in
    (live-Sim s n (g, b, u, x, r) closed failed, r closed failed, closed, failed)
