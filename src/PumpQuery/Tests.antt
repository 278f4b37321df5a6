-- ===== src/PumpQuery/Tests.antt =====
-- Runs of the loop over the statements, and its theorems at concrete texts.
use php_duckdb.Prelude.{◌≡◌, refl, true, false, [], ◌∷◌}
use php_duckdb.PumpQuery.{
  Attempt, Locals, returned, thrown, result_error, pump_query, run_statements, keep,
}
use php_duckdb.PumpQuery.Results.{pump_query-chosen}
use php_duckdb.PumpQuery.Cleanup.{pump_query-settles, how_many, results_of}

-- `CREATE TABLE ...`, `SELECT ...` and `INSERT ...`.
abbrev creates : Attempt
creates = record { prepared = true; start_error = []; succeeded = true; rows = false; kind = 7 }

abbrev selects : Attempt
selects = record { prepared = true; start_error = []; succeeded = true; rows = true; kind = 1 }

abbrev fails : Attempt
fails = record { prepared = true; start_error = []; succeeded = false; rows = false; kind = 2 }

failing : pump_query (creates ∷ selects ∷ fails ∷ []) ≡ thrown (result_error 2) (2 ∷ 1 ∷ 0 ∷ [])
unfolding pump_query run_statements keep
failing = refl

pump_query-chosen_example :
    (l : Locals) × (pump_query (creates ∷ selects ∷ creates ∷ []) ≡ returned l)
    × (l.out ≡ 1)
    × (l.out_type ≡ 1)
    × (l.held ≡ true)
pump_query-chosen_example = pump_query-chosen creates (selects ∷ creates ∷ []) refl

pump_query-settles_example :
    how_many 1 (results_of (pump_query (creates ∷ selects ∷ fails ∷ []))) ≡ 1
unfolding pump_query run_statements keep
pump_query-settles_example = pump_query-settles (creates ∷ selects ∷ fails ∷ []) 1
