-- ===== src/Appender/Methods.antt =====
-- The methods of `DuckDB\Appender`, and the end of the object.
use php_duckdb.Prelude.{
  ℕ, zero, suc, ◌+◌, Bool, true, false, not, ◌||◌, ◌&&◌, List, [], ◌∷◌, ◌++◌, none, some,
  if◌then◌else◌, ◌==◌,
}
use php_duckdb.Appender.{
  State, Call, begin_row, append_value, append_default, end_row, flush, append_chunk, clear, close,
  destroy, uninitialized, appender_closed, connection_closed, row_is_open, no_row_open, wrong_count,
  conversion_failed, not_imported, native_error, Env, Done, refuse, unless, appender_get,
  conn_enter, enter_write, fail, native_call,
}

unfoldable pub begin_row_method : Env → State → Done
begin_row_method env s = unless (appender_get env s) s (
    if s.row_open
    then refuse s row_is_open
    else unless (conn_enter env) s
        (native_call begin_row (env.answers 0) s (record s { row_open = true })))

unfoldable pub append_method : Env → State → Done
append_method env s = unless (appender_get env s) s (
    if not s.row_open
    then refuse s no_row_open
    else unless (conn_enter env) s (
        if not env.converts
        then refuse s conversion_failed
        else native_call append_value (env.answers 0) s s))

unfoldable pub append_default_method : Env → State → Done
append_default_method env s = unless (appender_get env s) s (
    if not s.row_open
    then refuse s no_row_open
    else unless (conn_enter env) s (native_call append_default (env.answers 0) s s))

unfoldable pub end_row_method : Env → State → Done
end_row_method env s = unless (appender_get env s) s (
    if not s.row_open
    then refuse s no_row_open
    else unless (enter_write env) s (
        let ended = record s { row_open = false } in
        native_call end_row (env.answers 0) ended ended))

-- The loop over the converted values and the end of the row, with the answers from `i` on: the calls,
-- and whether the last one succeeded.
unfoldable pub append_values : (ℕ → Bool) → ℕ → ℕ → List (Call × Bool) × Bool
append_values answers i zero = let answer = answers i in ((end_row, answer) ∷ [], answer)
append_values answers i (suc values) =
    let (calls, succeeded) = append_values answers (i + 1) values in
    if answers i
    then ((append_value, true) ∷ calls, succeeded)
    else ((append_value, false) ∷ [], false)

abbrev pub whole_row : (ℕ → Bool) → ℕ → List (Call × Bool) × Bool
whole_row answers values =
    let (calls, succeeded) = append_values answers 1 values in
    if answers 0 then ((begin_row, true) ∷ calls, succeeded) else ((begin_row, false) ∷ [], false)

abbrev pub finish_row : State → List (Call × Bool) × Bool → Done
finish_row s (calls, succeeded) =
    if succeeded
    then record { after = s; thrown = none; calls = calls }
    else record { after = fail s; thrown = some native_error; calls = calls }

-- `appendRow`, with the number of columns and of values.
unfoldable pub append_row_method : ℕ → ℕ → Env → State → Done
append_row_method columns values env s = unless (appender_get env s) s (
    if s.row_open
    then refuse s row_is_open
    else if not (values == columns)
    then refuse s wrong_count
    else unless (enter_write env) s (
        if not env.converts
        then refuse s conversion_failed
        else finish_row s (whole_row env.answers values)))

unfoldable pub flush_method : Env → State → Done
flush_method env s =
    unless (appender_get env s) s
      (unless (enter_write env) s (native_call flush (env.answers 0) s s))

-- The submission of batches, up to the first that fails.
unfoldable pub append_batches : (ℕ → Bool) → ℕ → ℕ → List (Call × Bool) × Bool
append_batches answers i zero = ([], true)
append_batches answers i (suc batches) =
    let (calls, succeeded) = append_batches answers (i + 1) batches in
    if answers i
    then ((append_chunk, true) ∷ calls, succeeded)
    else ((append_chunk, false) ∷ [], false)

-- `duckdb_appender_append_chunk`, with the number of chunks that it submits.
unfoldable pub append_chunk_method : ℕ → Env → State → Done
append_chunk_method batches env s = unless (appender_get env s) s (
    if s.row_open
    then refuse s row_is_open
    else unless (enter_write env) s (
        if not env.converts
        then refuse s not_imported
        else finish_row s (append_batches env.answers 0 batches)))

unfoldable pub clear_method : Env → State → Done
clear_method env s =
    if not env.initialized
    then refuse s uninitialized
    else if s.closed || not s.handle
    then refuse s appender_closed
    else if not env.connected
    then refuse s connection_closed
    else unless (conn_enter env) s
        (native_call clear (env.answers 0) s (record s { row_open = false; failed = false }))

abbrev pub shut : State → State
shut s = record s { closed = true; row_open = false }

unfoldable pub close_method : Env → State → Done
close_method env s =
    if not env.initialized
    then refuse s uninitialized
    else if s.closed
    then record { after = s; thrown = none; calls = [] }
    else if not s.failed && s.handle
    then unless (enter_write env) s (native_call close (env.answers 0) (shut s) (shut s))
    else if s.failed
    then unless (conn_enter env) (shut s) (record {
      after = shut s;
      thrown = if env.answers 0 then none else some native_error;
      calls = (clear, env.answers 0) ∷ [];
    })
    else record { after = shut s; thrown = none; calls = [] }

-- The work that `~appender_inner` does or defers.
unfoldable pub cleanup : (ℕ → Bool) → State → List (Call × Bool)
cleanup answers s =
    if not s.handle
    then []
    else (if s.failed then (clear, answers 0) ∷ [] else [])
      ++ (if not s.closed && not s.failed
          then (close, answers 0) ∷ (if answers 0 then [] else (clear, answers 1) ∷ [])
          else [])
      ++ ((destroy, true) ∷ [])
