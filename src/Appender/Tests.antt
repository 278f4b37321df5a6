-- ===== src/Appender/Tests.antt =====
-- Runs of an appender, and its theorems at concrete calls.
use php_duckdb.Prelude.{
  ℕ, ◌≡◌, refl, ap, true, false, not, List, [], ◌∷◌, ◌++◌, arith, length, take, All, ◌==◌,
}
use php_duckdb.Appender.{Env, begin_row, append_value, appender_get}
use php_duckdb.Appender.Methods.{cleanup, append_row_method, append_values, begin_row_method}
use php_duckdb.Appender.Protocol.{new_native}
use php_duckdb.Appender.Trace.{
  Method, appends_row, begins, fresh, run, apply, Ends, run-follows_protocol,
}
use php_duckdb.Appender.Batches.{
  Copier, Chunk, CopiesRows, batches, cut, column_of, IsBounded, batches-rows,
}
use php_duckdb.Selection.Rows.{picks}

-- Everything is in order, and the second native call of a method fails.
abbrev second_fails : Env
second_fails = record {
  initialized = true;
  connected = true;
  enters = true;
  no_result = true;
  converts = true;
  answers = λ i. not (i == 1);
}

abbrev two_calls : List (Method × Env)
two_calls = (appends_row 2 2, second_fails) ∷ (begins, second_fails) ∷ []

failed_row : (run two_calls fresh).1 ≡ (begin_row, true) ∷ (append_value, false) ∷ []
unfolding run apply append_row_method append_values begin_row_method appender_get
failed_row = refl

run-follows_protocol_example :
    Ends ((run two_calls fresh).1 ++ cleanup (λ i. true) (run two_calls fresh).0) new_native
unfolding run apply append_row_method append_values begin_row_method appender_get
run-follows_protocol_example = run-follows_protocol two_calls (λ i. true) refl

abbrev picking : Copier ℕ
picking column indices count = picks column (take count indices) 0

whole : (ns : List ℕ) → take (length ns) ns ≡ ns
whole [] = refl
whole (n ∷ ns) = ap (λ (ms : List ℕ). n ∷ ms) (whole ns)

picking-CopiesRows : CopiesRows picking 0
picking-CopiesRows = record {
  copy_picks = λ column indices h. ap (λ (ns : List ℕ). picks column ns 0) (whole indices);
}

-- Five rows in two columns.
abbrev five_rows : Chunk ℕ
five_rows = record { size = 5; columns = (9 ∷ 8 ∷ 7 ∷ 6 ∷ 5 ∷ []) ∷ (1 ∷ 2 ∷ 3 ∷ 4 ∷ 5 ∷ []) ∷ [] }

batches-rows_example :
    (column_of 1 (batches picking 2 five_rows) ≡ 1 ∷ 2 ∷ 3 ∷ 4 ∷ 5 ∷ [])
    × All (IsBounded 2) (batches picking 2 five_rows)
batches-rows_example =
    batches-rows picking 0 2 five_rows 1 picking-CopiesRows (omega arith) (omega arith)
      (omega arith) refl

-- The last batch is the smaller one.
three_batches : length (batches picking 2 five_rows) ≡ 3
unfolding batches cut
three_batches = refl
