-- ===== src/Appender/Rows.antt =====
-- Rows and batches of native calls follow the protocol.
use php_duckdb.Prelude.{
  ℕ, zero, suc, ◌+◌, ◌≡◌, inl, inr, refl, sym, Bool, true, false, not, ◌&&◌, List, [], ◌∷◌, none,
  ◌==◌, if◌then◌else◌, Bool-cases,
}
use php_duckdb.Appender.{
  State, Call, begin_row, append_value, end_row, append_chunk, Env, appender_get, fail, enter_write,
  row_is_open, wrong_count, conversion_failed, not_imported,
}
use php_duckdb.Appender.Methods.{
  append_values, whole_row, finish_row, append_row_method, append_batches, append_chunk_method,
}
use php_duckdb.Appender.Protocol.{Native, is_live, allowed, advance, break, follow}
use php_duckdb.Appender.Simulation.{
  Sim, Refines, refuse-Refines, unless-Refines, if-Refines, fail-Sim, appender_get-live, follow-one,
  nothing-Refines,
}
use php_duckdb.Appender.Refinement.{outside_row}

-- A call put in front of a row's or a batch's calls.
prepend-Refines :
    (call : Call) (answer : Bool) (s : State) (n : Native) (rest : List (Call × Bool) × Bool)
    → allowed call n ≡ true
    → Refines (if answer then advance call n else break call n) (finish_row s rest)
    → Refines n (finish_row s ((call, answer) ∷ rest.0, rest.1))
unfolding follow
prepend-Refines call answer s n (calls, true) e (n', f, sim) = (n', rw e f, sim)
prepend-Refines call answer s n (calls, false) e (n', f, sim) = (n', rw e f, sim)

stop-Refines :
    (call : Call) (s : State) (n : Native)
    → allowed call n ≡ true
    → Sim (fail s) (break call n)
    → Refines n (finish_row s ((call, false) ∷ [], false))
stop-Refines call s n e h = (break call n, follow-one call false n e, h)

-- The calls of a row that has begun.
append_values-Refines :
    (answers : ℕ → Bool) (i values : ℕ) (s : State) (n : Native)
    → (is_live n && n.row) ≡ true
    → s.row_open ≡ false
    → Sim (record s { row_open = true }) n
    → Refines n (finish_row s (append_values answers i values))
unfolding append_values
append_values-Refines answers i zero s n e free (g, b, u, x, r) = elim (Bool-cases (answers i)) [
  | inl t ↦ rw t (advance end_row n, follow-one end_row true n e, (g, b, u, x, λ c f. sym free))
  | inr f ↦
      rw f
        (break end_row n, follow-one end_row false n e, (g, (λ y. refl), (λ y. refl), x, λ c y. cc))
]
append_values-Refines answers i (suc values) s n e free (g, b, u, x, r) =
    let later = append_values-Refines answers (i + 1) values s n e free (g, b, u, x, r) in
    elim (Bool-cases (answers i)) [
      | inl t ↦
          rw t
            (prepend-Refines append_value true s n (append_values answers (i + 1) values) e later)
      | inr f ↦ rw f (stop-Refines append_value s n e (g, (λ y. refl), (λ y. refl), x, λ c y. cc))
    ]

append_batches-Refines :
    (answers : ℕ → Bool) (i batches : ℕ) (s : State) (n : Native)
    → (is_live n && not n.row) ≡ true
    → Sim s n
    → Refines n (finish_row s (append_batches answers i batches))
unfolding append_batches
append_batches-Refines answers i zero s n e h = nothing-Refines s n none h
append_batches-Refines answers i (suc batches) s n e h =
    let later = append_batches-Refines answers (i + 1) batches s n e h in
    elim (Bool-cases (answers i)) [
      | inl t ↦
          rw t
            (prepend-Refines append_chunk true s n (append_batches answers (i + 1) batches) e later)
      | inr f ↦ rw f (stop-Refines append_chunk s n e (fail-Sim s n append_chunk h))
    ]

pub append_chunk-Refines :
    (batches : ℕ) (env : Env) (s : State) (n : Native)
    → Sim s n
    → Refines n (append_chunk_method batches env s)
unfolding append_chunk_method
append_chunk-Refines batches env s n sim = unless-Refines (appender_get env s) s n _ sim λ got.
    let (live, row, closed, failed) = appender_get-live env s n got sim in
    if-Refines s.row_open n _ _ (λ t. refuse-Refines s n row_is_open sim)
      λ free. unless-Refines (enter_write env) s n _ sim λ entered.
        if-Refines (not env.converts) n _ _ (λ t. refuse-Refines s n not_imported sim)
          λ converted.
            append_batches-Refines env.answers 0 batches s n (outside_row env s n sim live row free)
              sim

whole_row-Refines :
    (env : Env) (s : State) (n : Native)
    → Sim s n
    → is_live n ≡ true
    → n.row ≡ s.row_open
    → s.row_open ≡ false
    → (values : ℕ) → Refines n (finish_row s (whole_row env.answers values))
whole_row-Refines env s n sim live row free values =
    let (g, b, u, x, r) = sim in
    let ready = outside_row env s n sim live row free in
    let begun : Native = record n { row = true } in
    let inside : (is_live begun && begun.row) ≡ true = rw live in
    elim (Bool-cases (env.answers 0)) [
      | inl t ↦ rw t (
          prepend-Refines begin_row true s n (append_values env.answers 1 values) ready (
            append_values-Refines env.answers 1 values s begun inside free
              (g, b, u, x, λ c f. refl)))
      | inr f ↦ rw f (stop-Refines begin_row s n ready (fail-Sim s n begin_row sim))
    ]

pub append_row-Refines :
    (columns values : ℕ) (env : Env) (s : State) (n : Native)
    → Sim s n
    → Refines n (append_row_method columns values env s)
unfolding append_row_method
append_row-Refines columns values env s n sim = unless-Refines (appender_get env s) s n _ sim λ got.
    let (live, row, closed, failed) = appender_get-live env s n got sim in
    if-Refines s.row_open n _ _ (λ t. refuse-Refines s n row_is_open sim)
      λ free.
        if-Refines (not (values == columns)) n _ _ (λ t. refuse-Refines s n wrong_count sim)
          λ counted. unless-Refines (enter_write env) s n _ sim λ entered.
            if-Refines (not env.converts) n _ _ (λ t. refuse-Refines s n conversion_failed sim)
              λ converted. whole_row-Refines env s n sim live row free values
