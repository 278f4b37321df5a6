-- ===== src/SessionMap.antt =====
-- src/copy_session.cpp: the sessions that a database publishes by connection id.
pub mod Publication
mod Tests
use php_duckdb.Prelude.{
  ℕ, Bool, true, false, not, ◌||◌, ◌&&◌, List, [], ◌∷◌, Option, none, some, Bytes, ◌==◌,
  if◌then◌else◌,
}

-- `db_inner::sessions`: connection ids, and the sessions published under them.
abbrev pub Sessions : Type 0
Sessions = List (ℕ × ℕ)

abbrev pub lookup : ℕ → Sessions → Option ℕ
lookup id [] = none
lookup id ((k, session) ∷ m) = if k == id then some session else lookup id m

abbrev pub erase : ℕ → Sessions → Sessions
erase id [] = []
erase id ((k, session) ∷ m) = let rest = erase id m in if k == id then rest else (k, session) ∷ rest

-- `weak_ptr::lock`, with the sessions that are alive.
abbrev pub lock : (ℕ → Bool) → Option ℕ → Option ℕ
lock alive none = none
lock alive (some session) = if alive session then some session else none

abbrev pub is_session : ℕ → Option ℕ → Bool
is_session session none = false
is_session session (some other) = other == session

-- The publication in `duckdb_session_open`.
unfoldable pub publish : ℕ → ℕ → Sessions → Sessions
publish id session m = (id, session) ∷ erase id m

-- The second half of `session_close`: a session stops being published, unless another one took its id.
unfoldable pub unpublish : (ℕ → Bool) → ℕ → ℕ → Sessions → Sessions
unpublish alive id session m =
    if is_session session (lock alive (lookup id m)) then erase id m else m

-- `duckdb_session_find`.
unfoldable pub session_find : (ℕ → Bool) → ℕ → Sessions → Option ℕ
session_find alive id m = lock alive (lookup id m)

-- `duckdb_session_find_bind`, with the sessions that run bind callbacks.
unfoldable pub session_find_bind : (ℕ → Bool) → (ℕ → Bool) → ℕ → Sessions → Option ℕ
session_find_bind alive marshals id m = elim (session_find alive id m) [
  | none ↦ none
  | some session ↦ if marshals session then some session else none
]
