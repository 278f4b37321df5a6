-- ===== src/PumpQuery.antt =====
-- src/copy_session.cpp, `duckdb_pump_query`: the loop over the statements of a text.
pub mod Results
pub mod Cleanup
mod Tests
use php_duckdb.Prelude.{
  ℕ, zero, suc, ◌+◌, Bool, true, false, not, ◌||◌, ◌&&◌, List, [], ◌∷◌, ◌++◌, Option, none, some,
  Bytes, if◌then◌else◌,
}

-- What the engine makes of one statement: whether it is prepared, the error with which it does not
-- start, whether its execution succeeds, whether its result returns rows, and its statement type.
pub record Attempt : Type 0 where
  pub prepared : Bool
  pub start_error : Bytes
  pub succeeded : Bool
  pub rows : Bool
  pub kind : ℕ

-- The error that is thrown, with the number of the statement that raised it.
pub data Failure : Type 0 where
  prepare_error start_failure result_error : ℕ → Failure

-- The locals `held`, `held_rows`, `out` (the number of the statement whose result it holds) and
-- `out_type`, and the results that were destroyed.
pub record Locals : Type 0 where
  pub held : Bool
  pub held_rows : Bool
  pub out : ℕ
  pub out_type : ℕ
  pub destroyed : List ℕ

pub data Answer : Type 0 where
  thrown : Failure → List ℕ → Answer
  returned : Locals → Answer

abbrev pub is_empty : Bytes → Bool
is_empty [] = true
is_empty (c ∷ cs) = false

abbrev pub nothing_held : Locals
nothing_held = record { held = false; held_rows = false; out = 0; out_type = 0; destroyed = [] }

-- The results that have been destroyed once `out` is destroyed too, if it is held.
abbrev pub released : Locals → List ℕ
released l = if l.held then l.out ∷ l.destroyed else l.destroyed

-- What the loop does with the result `i` of a statement that succeeded.
unfoldable pub keep : ℕ → Attempt → Locals → Locals
keep i a l =
    if l.held && l.held_rows
    then record {
      held = l.held;
      held_rows = l.held_rows;
      out = l.out;
      out_type = l.out_type;
      destroyed = i ∷ l.destroyed;
    }
    else record {
      held = true;
      held_rows = a.rows;
      out = i;
      out_type = a.kind;
      destroyed = released l;
    }

-- The loop from the statement `i` on.
unfoldable pub run_statements : List Attempt → ℕ → Locals → Answer
run_statements [] i l = returned l
run_statements (a ∷ attempts) i l =
    let rest = run_statements attempts (i + 1) (keep i a l) in
    if not a.prepared
    then thrown (prepare_error i) (released l)
    else if not (is_empty a.start_error)
    then thrown (start_failure i) (released l)
    else if not a.succeeded
    then thrown (result_error i) (i ∷ released l)
    else rest

-- `duckdb_pump_query` on a text with at least one statement.
unfoldable pub pump_query : List Attempt → Answer
pump_query attempts = run_statements attempts 0 nothing_held
