-- ===== src/Appender.antt =====
-- src/appender.cpp: the appender object and the native calls that its methods make.
pub mod Methods
pub mod Protocol
pub mod Simulation
pub mod Refinement
pub mod Rows
pub mod Trace
pub mod Ranges
pub mod Batches
mod Tests
use php_duckdb.Prelude.{
  ℕ, Bool, true, false, not, ◌||◌, List, [], ◌∷◌, Option, none, some, if◌then◌else◌,
}

-- `appender_inner`: whether the native handle exists, and the three flags.
pub record State : Type 0 where
  pub handle : Bool
  pub closed : Bool
  pub failed : Bool
  pub row_open : Bool

-- The calls of the engine that act on an appender.
pub data Call : Type 0 where
  begin_row append_value append_default end_row flush append_chunk clear close destroy : Call

pub data Error : Type 0 where
  uninitialized appender_closed appender_failed connection_closed busy open_result : Error
  row_is_open no_row_open wrong_count conversion_failed not_imported native_error : Error

-- What surrounds one call of a method: whether the object is initialised, the connection open, not
-- busy on this thread and free of open results, whether the values convert or the chunk is there, and
-- whether the native calls succeed, in their order.
pub record Env : Type 0 where
  pub initialized : Bool
  pub connected : Bool
  pub enters : Bool
  pub no_result : Bool
  pub converts : Bool
  pub answers : ℕ → Bool

-- What a method leaves: the object, what it throws, and its native calls with their success.
pub record Done : Type 0 where
  pub after : State
  pub thrown : Option Error
  pub calls : List (Call × Bool)

abbrev pub refuse : State → Error → Done
refuse s e = record { after = s; thrown = some e; calls = [] }

-- Go on, unless a check has thrown.
abbrev pub unless : Option Error → State → Done → Done
unless none s done = done
unless (some e) s done = refuse s e

-- `duckdb_appender_get`.
unfoldable pub appender_get : Env → State → Option Error
appender_get env s =
    if not env.initialized
    then some uninitialized
    else if s.closed || not s.handle
    then some appender_closed
    else if s.failed
    then some appender_failed
    else if not env.connected
    then some connection_closed
    else none

abbrev pub conn_enter : Env → Option Error
conn_enter env = if env.enters then none else some busy

-- `duckdb_appender_enter_write`.
abbrev pub enter_write : Env → Option Error
enter_write env =
    if not env.enters then some busy else if env.no_result then none else some open_result

-- `duckdb_appender_fail`.
abbrev pub fail : State → State
fail s = record s { failed = true }

-- A native call, after which the object is `s` if it succeeds; a failure marks the object.
abbrev pub native_call : Call → Bool → State → State → Done
native_call call answer s next =
    if answer
    then record { after = next; thrown = none; calls = (call, true) ∷ [] }
    else record { after = fail s; thrown = some native_error; calls = (call, false) ∷ [] }
