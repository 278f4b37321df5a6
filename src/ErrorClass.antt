-- ===== src/ErrorClass.antt =====
-- src/values.cpp: the categories of error messages and the classes of exceptions.
pub mod Prefixes
mod Tests
use php_duckdb.Prelude.{List, [], ◌∷◌, Option, none, some, Bytes, codes, has_prefix, if◌then◌else◌}

-- The values of `duckdb_error_type` that the code names.
pub data ErrorType : Type 0 where
  parser syntax binder catalog constraint : ErrorType
  transaction sequence conversion out_of_range mismatch_type : ErrorType
  divide_by_zero invalid_input invalid_configuration data_corruption resource_in_use : ErrorType
  not_implemented io http network permission : ErrorType
  missing_extension autoload interrupt internal fatal : ErrorType
  connection parameter_not_resolved parameter_not_allowed dependency decimal : ErrorType
  invalid_type unknown_type null_pointer serialization invalid : ErrorType

pub data ExceptionClass : Type 0 where
  connection_exception parser_exception binder_exception catalog_exception : ExceptionClass
  constraint_exception transaction_exception conversion_exception io_exception : ExceptionClass
  interrupted_exception internal_exception duckdb_exception : ExceptionClass

-- `duckdb_exception_ce_for_type`.
unfoldable pub exception_class : ErrorType → ExceptionClass
exception_class connection = connection_exception
exception_class parser = parser_exception
exception_class syntax = parser_exception
exception_class binder = binder_exception
exception_class parameter_not_resolved = binder_exception
exception_class parameter_not_allowed = binder_exception
exception_class catalog = catalog_exception
exception_class dependency = catalog_exception
exception_class constraint = constraint_exception
exception_class transaction = transaction_exception
exception_class sequence = transaction_exception
exception_class conversion = conversion_exception
exception_class out_of_range = conversion_exception
exception_class mismatch_type = conversion_exception
exception_class divide_by_zero = conversion_exception
exception_class decimal = conversion_exception
exception_class invalid_type = conversion_exception
exception_class unknown_type = conversion_exception
exception_class io = io_exception
exception_class network = io_exception
exception_class http = io_exception
exception_class permission = io_exception
exception_class missing_extension = io_exception
exception_class autoload = io_exception
exception_class interrupt = interrupted_exception
exception_class fatal = internal_exception
exception_class internal = internal_exception
exception_class null_pointer = internal_exception
exception_class serialization = internal_exception
exception_class _ = duckdb_exception

-- The table of `duckdb_classify_error_message`.
abbrev pub prefixes : List (Bytes × ErrorType)
prefixes =
    (codes "Parser Error:", parser)
    ∷ (codes "Syntax Error:", syntax)
    ∷ (codes "Binder Error:", binder)
    ∷ (codes "Catalog Error:", catalog)
    ∷ (codes "Constraint Error:", constraint)
    ∷ (codes "Transaction Error:", transaction)
    ∷ (codes "TransactionContext Error:", transaction)
    ∷ (codes "Sequence Error:", sequence)
    ∷ (codes "Conversion Error:", conversion)
    ∷ (codes "Out of Range Error:", out_of_range)
    ∷ (codes "Type Mismatch Error:", mismatch_type)
    ∷ (codes "Divide By Zero Error:", divide_by_zero)
    ∷ (codes "Invalid Input Error:", invalid_input)
    ∷ (codes "Invalid Configuration Error:", invalid_configuration)
    ∷ (codes "Data Corruption Error:", data_corruption)
    ∷ (codes "Resource In Use Error:", resource_in_use)
    ∷ (codes "Not implemented Error:", not_implemented)
    ∷ (codes "IO Error:", io)
    ∷ (codes "HTTP Error:", http)
    ∷ (codes "Network Error:", network)
    ∷ (codes "Permission Error:", permission)
    ∷ (codes "Missing Extension Error:", missing_extension)
    ∷ (codes "Autoloading Error:", autoload)
    ∷ (codes "Interrupted Error:", interrupt)
    ∷ (codes "INTERRUPT Error:", interrupt)
    ∷ (codes "INTERNAL Error:", internal)
    ∷ (codes "FATAL Error:", fatal)
    ∷ (codes "Invalid Error:", invalid_input)
    ∷ []

-- The loop over the table.
unfoldable pub search_prefix : List (Bytes × ErrorType) → Bytes → ErrorType
search_prefix [] message = invalid
search_prefix ((prefix, type) ∷ entries) message =
    let rest = search_prefix entries message in if has_prefix prefix message then type else rest

unfoldable pub classify_error_message : Option Bytes → ErrorType
classify_error_message none = invalid
classify_error_message (some message) = search_prefix prefixes message

-- The class of what `duckdb_throw_prepare_error` throws.
unfoldable pub prepare_error_class : Option Bytes → ExceptionClass
prepare_error_class message = exception_class (classify_error_message message)

abbrev pub or_internal : ErrorType → ErrorType
or_internal invalid = internal
or_internal type = type

-- The class of what `duckdb_throw_start_error` of src/copy_session.cpp throws.
unfoldable pub start_error_class : Bytes → ExceptionClass
start_error_class message = exception_class (or_internal (classify_error_message (some message)))
