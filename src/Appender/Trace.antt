-- ===== src/Appender/Trace.antt =====
-- Whatever is called in whatever order, the native calls follow the protocol.
use php_duckdb.Prelude.{
  ℕ, ◌≡◌, inl, inr, refl, sym, ap, ◌∙◌, Bool, true, false, not, List, [], ◌∷◌, ◌++◌, none, some,
  if◌then◌else◌, Bool-cases,
}
use mathlib.Core.Path.{subst}
use php_duckdb.Appender.{State, Call, clear, close, destroy, Env, Done}
use php_duckdb.Appender.Methods.{
  begin_row_method, append_method, append_default_method, end_row_method, append_row_method,
  flush_method, append_chunk_method, clear_method, close_method, cleanup,
}
use php_duckdb.Appender.Protocol.{Native, new_native, is_live, allowed, advance, break, follow}
use php_duckdb.Appender.Simulation.{Sim, Refines, refuted, live-Sim}
use php_duckdb.Appender.Refinement.{
  begin_row-Refines, append-Refines, append_default-Refines, end_row-Refines, flush-Refines,
  clear-Refines, close-Refines,
}
use php_duckdb.Appender.Rows.{append_row-Refines, append_chunk-Refines}

-- A method with its arguments: the columns and values of a row, the batches of a chunk.
pub data Method : Type 0 where
  begins appends appends_default ends flushes clears closes : Method
  appends_row : ℕ → ℕ → Method
  appends_chunk : ℕ → Method

unfoldable pub apply : Method → Env → State → Done
apply begins = begin_row_method
apply appends = append_method
apply appends_default = append_default_method
apply ends = end_row_method
apply flushes = flush_method
apply clears = clear_method
apply closes = close_method
apply (appends_row columns values) = append_row_method columns values
apply (appends_chunk batches) = append_chunk_method batches

-- The methods that PHP calls, one after the other: the object at the end, and all native calls.
unfoldable pub run : List (Method × Env) → State → State × List (Call × Bool)
run [] s = (s, [])
run ((method, env) ∷ calls) s =
    let done = apply method env s in
    let (after, later) = run calls done.after in (after, done.calls ++ later)

-- The object that `Connection::appender` makes.
abbrev pub fresh : State
fresh = record { handle = true; closed = false; failed = false; row_open = false }

apply-Refines :
    (method : Method) (env : Env) (s : State) (n : Native)
    → Sim s n
    → Refines n (apply method env s)
unfolding apply
apply-Refines begins env s n h = begin_row-Refines env s n h
apply-Refines appends env s n h = append-Refines env s n h
apply-Refines appends_default env s n h = append_default-Refines env s n h
apply-Refines ends env s n h = end_row-Refines env s n h
apply-Refines flushes env s n h = flush-Refines env s n h
apply-Refines clears env s n h = clear-Refines env s n h
apply-Refines closes env s n h = close-Refines env s n h
apply-Refines (appends_row columns values) env s n h = append_row-Refines columns values env s n h
apply-Refines (appends_chunk batches) env s n h = append_chunk-Refines batches env s n h

some_injective : {n m : Native} → some n ≡ some m → n ≡ m
some_injective e = cc

none≢some : {n : Native} → none ≡ some n → ⊥
none≢some e = cc

-- A call that is in order, and one that is not.
follow-in :
    (call : Call) (answer : Bool) (calls : List (Call × Bool)) (n : Native)
    → allowed call n ≡ true
    → follow ((call, answer) ∷ calls) n
      ≡ follow calls (if answer then advance call n else break call n)
unfolding follow
follow-in call answer calls n t = rw t

follow-out :
    (call : Call) (answer : Bool) (calls : List (Call × Bool)) (n : Native)
    → allowed call n ≡ false
    → follow ((call, answer) ∷ calls) n ≡ none
unfolding follow
follow-out call answer calls n f = rw f

follow-nil : (n : Native) → follow [] n ≡ some n
unfolding follow
follow-nil n = refl

follow-append :
    (first second : List (Call × Bool)) (n n' : Native)
    → follow first n ≡ some n'
    → follow (first ++ second) n ≡ follow second n'
follow-append [] second n n' e = ap (follow second) (some_injective (sym (follow-nil n) ∙ e))
follow-append ((call, answer) ∷ first) second n n' e =
    let next = if answer then advance call n else break call n in
    elim (Bool-cases (allowed call n)) [
      | inl t ↦
          follow-in call answer (first ++ second) n t
          ∙ follow-append first second next n' (sym (follow-in call answer first n t) ∙ e)
      | inr f ↦ elim (none≢some (sym (follow-out call answer first n f) ∙ e)) [ ]
    ]

run-follows :
    (calls : List (Method × Env)) (s : State) (n : Native)
    → Sim s n
    → (n' : Native) × (follow (run calls s).1 n ≡ some n') × Sim (run calls s).0 n'
unfolding run
run-follows [] s n h = (n, follow-nil n, h)
run-follows ((method, env) ∷ calls) s n h =
    let (m, e, sim) = apply-Refines method env s n h in
    let (n', f, sim') = run-follows calls (apply method env s).after m sim in
    (
      n',
      follow-append (apply method env s).calls (run calls (apply method env s).after).1 n m e ∙ f,
      sim',
    )

abbrev last_calls : Call → Bool → List (Call × Bool)
last_calls call answer = (call, answer) ∷ (destroy, true) ∷ []

cleanup-failed :
    (answers : ℕ → Bool) (s : State)
    → s.handle ≡ true
    → s.failed ≡ true
    → cleanup answers s ≡ last_calls clear (answers 0)
unfolding cleanup
cleanup-failed answers s h f = elim (Bool-cases s.closed) [
  | inl c ↦ rw (h, f, c)
  | inr o ↦ rw (h, f, o)
]

cleanup-closed :
    (answers : ℕ → Bool) (s : State)
    → s.handle ≡ true
    → s.failed ≡ false
    → s.closed ≡ true
    → cleanup answers s ≡ (destroy, true) ∷ []
unfolding cleanup
cleanup-closed answers s h f c = rw (h, f, c)

cleanup-live :
    (answers : ℕ → Bool) (s : State)
    → s.handle ≡ true
    → s.failed ≡ false
    → s.closed ≡ false
    → cleanup answers s
      ≡ (close, answers 0) ∷ (if answers 0 then [] else (clear, answers 1) ∷ [])
        ++ ((destroy, true) ∷ [])
unfolding cleanup
cleanup-live answers s h f c = rw (h, f, c)

-- What a sequence of calls leaves is destroyed.
abbrev pub Ends : List (Call × Bool) → Native → Type 0
Ends calls n = (n' : Native) × (follow calls n ≡ some n') × (n'.gone ≡ true)

destroy-Ends : (n : Native) → n.gone ≡ false → n.uncleared ≡ false → Ends ((destroy, true) ∷ []) n
destroy-Ends n g u = (
  advance destroy n,
  follow-in destroy true [] n (rw (g, u)) ∙ follow-nil (advance destroy n),
  refl,
)

clear-Ends : (answer : Bool) (n : Native) → n.gone ≡ false → Ends (last_calls clear answer) n
clear-Ends answer n g =
    let next = if answer then advance clear n else break clear n in
    let (n', e, gone) = destroy-Ends next (cleared_gone answer) (cleared answer) in
    (n', follow-in clear answer ((destroy, true) ∷ []) n (ap not g) ∙ e, gone)
  where
    cleared_gone : (b : Bool) → (if b then advance clear n else break clear n).gone ≡ false
    cleared_gone true = g
    cleared_gone false = g

    cleared : (b : Bool) → (if b then advance clear n else break clear n).uncleared ≡ false
    cleared true = refl
    cleared false = refl

close-Ends :
    (answer later : Bool) (n : Native)
    → is_live n ≡ true
    → n.gone ≡ false
    → n.uncleared ≡ false
    → Ends
        ((close, answer) ∷ (if answer then [] else (clear, later) ∷ []) ++ ((destroy, true) ∷ []))
        n
close-Ends true later n live g u =
    let (n', e, gone) = destroy-Ends (advance close n) g u in
    (n', follow-in close true ((destroy, true) ∷ []) n live ∙ e, gone)
close-Ends false later n live g u =
    let (n', e, gone) = clear-Ends later (break close n) g in
    (n', follow-in close false (last_calls clear later) n live ∙ e, gone)

-- The end of an object: a failed native appender is cleared before it is destroyed.
cleanup-Ends :
    (answers : ℕ → Bool) (s : State) (n : Native)
    → Sim s n
    → s.handle ≡ true
    → Ends (cleanup answers s) n
cleanup-Ends answers s n (g, b, u, x, r) handle = elim (Bool-cases s.failed) [
  | inl t ↦
      subst (λ calls. Ends calls n) (sym (cleanup-failed answers s handle t))
        (clear-Ends (answers 0) n g)
  | inr f ↦
      let cleared = refuted n.uncleared s.failed u f in
      elim (Bool-cases s.closed) [
        | inl c ↦
            subst (λ calls. Ends calls n) (sym (cleanup-closed answers s handle f c))
              (destroy-Ends n g cleared)
        | inr o ↦
            subst (λ calls. Ends calls n) (sym (cleanup-live answers s handle f o))
              (close-Ends (answers 0) (answers 1) n (live-Sim s n (g, b, u, x, r) o f) g cleared)
      ]
]

-- Whatever methods PHP calls on an appender, in any order and in any surroundings, its native calls
-- follow the protocol up to the destruction: a row is begun only outside a row, values and the end of
-- a row come inside one, nothing is flushed, appended or closed after a failure until the appender has
-- been cleared, and no failed appender is destroyed before clearing it was tried.
pub run-follows_protocol :
    (calls : List (Method × Env)) (answers : ℕ → Bool)
    → (run calls fresh).0.handle ≡ true
    → Ends ((run calls fresh).1 ++ cleanup answers (run calls fresh).0) new_native
run-follows_protocol calls answers handle =
    let (n, e, sim) =
      run-follows calls fresh new_native (refl, (λ x. cc), (λ x. cc), (λ x. refl), λ c f. refl) in
    let (n', f, gone) = cleanup-Ends answers (run calls fresh).0 n sim handle in
    (
      n',
      follow-append (run calls fresh).1 (cleanup answers (run calls fresh).0) new_native n e ∙ f,
      gone,
    )
