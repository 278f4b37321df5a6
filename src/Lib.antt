-- ===== src/Lib.antt =====
-- The verification library of the PHP extension `duckdb`.
--
-- The extension puts the DuckDB engine behind PHP classes. The engine, the Zend engine and the C
-- library are outside the repository: what the code asks of them is an argument of the definitions,
-- with what is documented of it as a hypothesis where a theorem needs it.
--
-- Which file models which part:
--   Prelude      numbers, lists, bytes and decimal notation that the parts share
--   Bignum       src/bignum_decode.cpp, `duckdb_decode_bignum`: the stored form of BIGNUM cells
--   Numeric      src/result.cpp, `duckdb_u128_to_string` to `duckdb_decimal_render`: integers of 128
--                bits and DECIMAL cells as text
--   Cells        src/result.cpp, `duckdb_uuid_to_string` to `duckdb_decode_value`: the cells of a
--                result as PHP values; Cells.Nested has lists, arrays, structs, maps and unions
--   Appender     src/appender.cpp: `DuckDB\Appender` and the destruction of its native handle
--   Variant      src/variant_decode.cpp: the bytes of a VARIANT payload and their reader, the text of
--                numbers (Variant.Real), of geometries (Variant.Geometry) and of strings
--                (Variant.Quote), the checks of the vectors of a cell (Variant.Decode) and the
--                rendering as JSON (Variant.Render). Variant.Stored says what a cell stores
--   LogStorage   src/logging.cpp: the bounded buffer that the engine's threads write and PHP drains;
--                LogStorage.Registry is `Database::registerLogStorage`
--   Selection    src/selection.cpp: `DuckDB\SelectionVector`, the check against a source, the gather
--   Session      src/copy_session.cpp, `copy_session`: the queue by which the engine's threads have
--                PHP work done on the request thread
--   Helper       src/copy_session.cpp, `conn_helper`: the thread that runs a connection's work
--   SessionMap   src/copy_session.cpp: the sessions that a database publishes by connection id
--   Pending      src/pending.cpp with `async_task` of php_duckdb.h: asynchronous queries
--   PumpQuery    src/copy_session.cpp, `duckdb_pump_query`: the loop over the statements of a text
--   ErrorClass   src/values.cpp, error messages and classes of exceptions, with
--                `duckdb_throw_start_error` of src/copy_session.cpp
--   Statement    src/statement.cpp: the parameters of a prepared statement, native and deferred
--   TypeLexer    src/typed_value.cpp, `quote` and the constructor of `parser`: the tokens of a type
--   TypedValue   src/typed_value.cpp, `snapshot` and `duckdb_value_initialize`: typed values
--   TypeGrammar  src/typed_value.cpp, `parser::type` and `duckdb_canonicalize_type`: the canonical
--                text of a type. TypeGrammar.Declared is the grammar itself, as relations
--
-- How they interact: results are turned into PHP values by Cells, which use Bignum and Numeric; a connection runs
-- queries through PumpQuery, whose statements run on the Helper and may reach PHP callbacks; those find
-- their session in SessionMap and go through Session. What fails is thrown as ErrorClass says.
-- A VARIANT cell is rendered by Variant. A TypedValue has a type that TypeLexer and TypeGrammar made
-- canonical, and a Statement binds typed values anew for each execution. Selections are arguments of
-- vectors and chunks, a log buffer of a database. Each part keeps its own state, and each is a module
-- of its own.
--
-- How code becomes definitions. A function is a function by clauses, an error a value of a result
-- type. A mutex gives critical sections: each is one function from state to state, and the
-- interleavings of threads are the sequences of such steps (`Session.Step`, `LogStorage.Account.Event`).
-- Whether a lock is taken, an allocation succeeds or a call throws is an argument. Numbers are
-- natural numbers with the wrap-around of the machine type written out; a byte string is the list of
-- its bytes, a signed word a pattern of bits or an integer. Characters are tested as in the C locale.
--
-- Fuel: `Bignum.push_rest` and `Bignum.count_leading` divide a number by at least ten in each round
-- and have more rounds than its value; `Numeric.collect` has the five places of its array as rounds,
-- which is proved to be enough; `Session.service` is counted by rounds, and `TypeLexer.lex` has as
-- many rounds as characters, both with a theorem that this is enough; `Appender.Batches.cut` has as
-- many rounds as rows, and its theorem covers every row. The levels of `Variant.Geometry.to_string`, of
-- `Variant.Render.render` and of `Cells.Nested.decode_column` are the limits of the code itself, as are those of `TypeGrammar.type` and of
-- `TypedValue.snapshot`; `TypeGrammar.parameters` has as many rounds as tokens, with a theorem that this
-- is enough.
--
-- Not modelled: the fetching of results, the conversion of typed values and the test whether a value
-- contains one, leases, transactions, the shutdown of asynchronous workers, COPY formats, scalar
-- functions, Arrow, vectors and chunks, which hold state of their own; the adapters of event loops, argument parsing, object
-- handlers and generated tables, which are glue.
pub mod Prelude
pub mod Bignum
pub mod Numeric
pub mod Cells
pub mod Appender
pub mod Pending
pub mod Variant
pub mod LogStorage
pub mod Selection
pub mod Session
pub mod Helper
pub mod SessionMap
pub mod PumpQuery
pub mod TypeLexer
pub mod TypeGrammar
pub mod TypedValue
pub mod Statement
pub mod ErrorClass
