-- ===== src/Appender/Refinement.antt =====
-- Each method but those for rows and chunks follows the protocol.
use php_duckdb.Prelude.{
  ◌≡◌, inl, inr, refl, ap, ◌∙◌, true, false, not, ◌&&◌, ◌||◌, [], ◌∷◌, none, some, arith,
  if◌then◌else◌, Bool-cases,
}
use php_duckdb.Appender.{
  State, begin_row, append_value, append_default, end_row, flush, clear, close, Env, appender_get,
  conn_enter, enter_write, row_is_open, no_row_open, conversion_failed, uninitialized,
  appender_closed, connection_closed, native_error,
}
use php_duckdb.Appender.Methods.{
  begin_row_method, append_method, append_default_method, end_row_method, flush_method,
  clear_method, shut, close_method,
}
use php_duckdb.Appender.Protocol.{Native, is_live, advance, break}
use php_duckdb.Appender.Simulation.{
  Sim, Refines, refuse-Refines, unless-Refines, if-Refines, fail-Sim, native_call-Refines,
  appender_get-live, follow-one, live-Sim, nothing-Refines,
}

module _ (env : Env) (s : State) (n : Native) (sim : Sim s n) where
  -- A call that a live appender takes while no row is open, and one while a row is open.
  pub outside_row :
      is_live n ≡ true → n.row ≡ s.row_open → s.row_open ≡ false → (is_live n && not n.row) ≡ true
  outside_row live row free = rw (live, row, free)

  inside_row :
      is_live n ≡ true → n.row ≡ s.row_open → s.row_open ≡ true → (is_live n && n.row) ≡ true
  inside_row live row free = rw (live, row, free)

  pub begin_row-Refines : Refines n (begin_row_method env s)
  unfolding begin_row_method
  begin_row-Refines = unless-Refines (appender_get env s) s n _ sim λ got.
      let (live, row, closed, failed) = appender_get-live env s n got sim in
      let (g, b, u, e, r) = sim in
      if-Refines s.row_open n _ _ (λ t. refuse-Refines s n row_is_open sim)
        λ free. unless-Refines (conn_enter env) s n _ sim λ entered.
          native_call-Refines begin_row (env.answers 0) s (record s { row_open = true }) n
            (outside_row live row free) (fail-Sim s n begin_row sim) (g, b, u, e, λ c f. refl)

  pub append-Refines : Refines n (append_method env s)
  unfolding append_method
  append-Refines = unless-Refines (appender_get env s) s n _ sim λ got.
      let (live, row, closed, failed) = appender_get-live env s n got sim in
      if-Refines (not s.row_open) n _ _ (λ t. refuse-Refines s n no_row_open sim)
        λ free. unless-Refines (conn_enter env) s n _ sim λ entered.
          if-Refines (not env.converts) n _ _ (λ t. refuse-Refines s n conversion_failed sim)
            λ converted.
              native_call-Refines append_value (env.answers 0) s s n
                (inside_row live row (ground arith)) (fail-Sim s n append_value sim) sim

  pub append_default-Refines : Refines n (append_default_method env s)
  unfolding append_default_method
  append_default-Refines = unless-Refines (appender_get env s) s n _ sim λ got.
      let (live, row, closed, failed) = appender_get-live env s n got sim in
      if-Refines (not s.row_open) n _ _ (λ t. refuse-Refines s n no_row_open sim)
        λ free. unless-Refines (conn_enter env) s n _ sim λ entered.
          native_call-Refines append_default (env.answers 0) s s n
            (inside_row live row (ground arith)) (fail-Sim s n append_default sim) sim

  pub end_row-Refines : Refines n (end_row_method env s)
  unfolding end_row_method
  end_row-Refines = unless-Refines (appender_get env s) s n _ sim λ got.
      let (live, row, closed, failed) = appender_get-live env s n got sim in
      if-Refines (not s.row_open) n _ _ (λ t. refuse-Refines s n no_row_open sim)
        λ free. unless-Refines (enter_write env) s n _ sim λ entered.
          let (g, b, u, e, r) = sim in
          let (g', b', u', e', r') = fail-Sim s n end_row sim in
          native_call-Refines end_row (env.answers 0) (record s { row_open = false })
            (record s { row_open = false }) n (inside_row live row (ground arith))
            (g', b', u', e', λ c x. cc) (g, b, u, e, λ c x. refl)

  pub flush-Refines : Refines n (flush_method env s)
  unfolding flush_method
  flush-Refines = unless-Refines (appender_get env s) s n _ sim λ got.
      let (live, row, closed, failed) = appender_get-live env s n got sim in
      unless-Refines (enter_write env) s n _ sim
        λ entered. native_call-Refines flush (env.answers 0) s s n live (fail-Sim s n flush sim) sim

  pub clear-Refines : Refines n (clear_method env s)
  unfolding clear_method
  clear-Refines =
      let (g, b, u, e, r) = sim in
      if-Refines (not env.initialized) n _ _ (λ t. refuse-Refines s n uninitialized sim)
        λ ready.
          if-Refines (s.closed || not s.handle) n _ _ (λ t. refuse-Refines s n appender_closed sim)
            λ usable.
              if-Refines (not env.connected) n _ _ (λ t. refuse-Refines s n connection_closed sim)
                λ connected. unless-Refines (conn_enter env) s n _ sim λ entered.
                  native_call-Refines clear (env.answers 0) s
                    (record s { row_open = false; failed = false }) n (ap not g)
                    (fail-Sim s n clear sim) (g, (λ x. cc), (λ x. cc), e, λ c f. refl)

  -- The clear of a failed appender that is being closed: it stays marked.
  close_failed-Refines :
      s.failed ≡ true
      → Refines n (record {
        after = shut s;
        thrown = if env.answers 0 then none else some native_error;
        calls = (clear, env.answers 0) ∷ [];
      })
  close_failed-Refines failed =
      let (g, b, u, e, r) = sim in
      elim (Bool-cases (env.answers 0)) [
        | inl t ↦ (
          advance clear n,
          follow-one clear (env.answers 0) n (ap not g) ∙ rw t,
          (g, (λ x. cc), (λ x. cc), (λ c. cc), λ c f. cc),
        )
        | inr f ↦ (
          break clear n,
          follow-one clear (env.answers 0) n (ap not g) ∙ rw f,
          (g, (λ x. failed), (λ x. cc), (λ c. cc), λ c f. cc),
        )
      ]

  shut-Sim : Sim (shut s) n
  shut-Sim = let (g, b, u, e, r) = sim in (g, b, u, (λ c. cc), λ c f. cc)

  pub close-Refines : Refines n (close_method env s)
  unfolding close_method
  close-Refines =
      let (g, b, u, e, r) = sim in
      if-Refines (not env.initialized) n _ _ (λ t. refuse-Refines s n uninitialized sim)
        λ ready.
          if-Refines s.closed n _ _ (λ t. nothing-Refines s n none sim)
            λ closed.
              if-Refines (not s.failed && s.handle) n _ _
                (λ t. unless-Refines (enter_write env) s n _ sim λ entered.
                  let live : is_live n ≡ true = live-Sim s n sim closed (ground arith) in
                  native_call-Refines close (env.answers 0) (shut s) (shut s) n live
                    (fail-Sim (shut s) n close shut-Sim) (g, b, u, (λ c. cc), λ c f. cc))
                λ f.
                  if-Refines s.failed n _ _
                    (λ t.
                      unless-Refines (conn_enter env) (shut s) n _ shut-Sim
                        λ entered. close_failed-Refines t)
                    λ fine. nothing-Refines (shut s) n none shut-Sim
