-- ===== src/ErrorClass/Tests.antt =====
-- Runs of the classification, and its theorem at a concrete message.
use php_duckdb.Prelude.{◌≡◌, refl, none, some, codes, ◌++◌}
use php_duckdb.ErrorClass.{
  classify_error_message, search_prefix, prepare_error_class, start_error_class, exception_class,
  io, internal_exception, duckdb_exception,
}
use php_duckdb.ErrorClass.Prefixes.{classify-prefix}

unknown_start : start_error_class (codes "No such thing") ≡ internal_exception
unfolding start_error_class classify_error_message search_prefix exception_class
unknown_start = refl

unknown_prepare : prepare_error_class none ≡ duckdb_exception
unfolding prepare_error_class classify_error_message exception_class
unknown_prepare = refl

classify-prefix_example : classify_error_message (some (codes "IO Error:" ++ codes " no file")) ≡ io
classify-prefix_example = classify-prefix 17 (codes "IO Error:") io (codes " no file") refl
