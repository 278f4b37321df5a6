-- ===== src/Statement.antt =====
-- src/statement.cpp: how the parameters of a prepared statement are found and bound.
pub mod Native
pub mod Given
pub mod Changes
pub mod Release
mod Tests
use php_duckdb.Prelude.{
  ℕ, zero, suc, ◌+◌, ◌-◌, ◌*◌, ◌/◌, ◌%◌, ◌^◌, ◌≤◌, ◌<◌, ◌≡◌, ◌≢◌, ◌↔◌, ◌⊎◌, inl, inr, refl, sym, ap,
  ◌∙◌, Bool, true, false, not, ◌&&◌, ◌||◌, List, [], ◌∷◌, ◌++◌, append_assoc, append-nil, Option,
  none, some, arith, tests, Bytes, codes, length, take, drop, replicate, get_elem?, get_or, All,
  All-append, length-append, ltb, leb, ◌==◌, ==_iff, if◌then◌else◌, Bool-cases, Option-cases,
  lt→ltb, length-replicate, take-append, drop-append, replicate_shift, bytes_eq, has_prefix,
}
use php_duckdb.Prelude.Int.{ℤ, pos, negsuc}

-- What the engine says of a statement: its number of parameters, the index of a name, and whether it takes a
-- value at an index.
pub record Engine (V : Type 0) : Type 0 where
  pub nparams : ℕ
  pub parameter_index : Bytes → Option ℕ
  pub takes : ℕ → V → Bool

-- What PHP makes of values at an execution: which contain a typed one, and the native values of several at once.
pub record Conversion (Z V : Type 0) : Type 0 where
  pub contains_typed : Z → Bool
  pub convert : List Z → Option (List V)

pub data Error : Type 0 where
  invalid_index empty_name unknown_name wrong_type too_many_values not_converted not_bound : Error
  not_text not_initialized not_connected busy : Error

pub data Result (A : Type 0) : Type 0 where
  ok : A → Result A
  failed : Error → Result A

abbrev pub bind : {A B : Type 0} → Result A → (A → Result B) → Result B
bind (ok a) f = f a
bind (failed e) f = failed e

pub data Param : Type 0 where
  by_position : ℤ → Param
  by_name : Bytes → Param
  other : Param

-- What a C string keeps of a text.
abbrev pub c_string : Bytes → Bytes
c_string [] = []
c_string (c ∷ s) = if c == 0 then [] else c ∷ c_string s

abbrev pub without_prefix : Bytes → Bytes
without_prefix [] = []
without_prefix (c ∷ s) = if c == b'$' || c == b':' then s else c ∷ s

abbrev pub known_index : Option ℕ → Result ℕ
known_index none = failed unknown_name
known_index (some i) = ok i

module _ {V : Type 0} where
  abbrev pub position_index : Engine V → ℤ → Result ℕ
  position_index e (negsuc n) = failed invalid_index
  position_index e (pos n) = if ltb n 1 || ltb e.nparams n then failed invalid_index else ok n

  abbrev pub name_index : Engine V → Bytes → Result ℕ
  name_index e [] = failed empty_name
  name_index e (c ∷ s) = known_index (e.parameter_index (c_string (c ∷ s)))

  -- `duckdb_resolve_param_index`.
  abbrev pub resolve_param_index : Engine V → Param → Result ℕ
  resolve_param_index e (by_position i) = position_index e i
  resolve_param_index e (by_name name) = name_index e (without_prefix name)
  resolve_param_index e other = failed wrong_type

-- The array of parameters of an execution, in its order, and whether PHP takes it for a list.
pub record Params (Z : Type 0) : Type 0 where
  pub is_list : Bool
  pub entries : List (Param × Z)

abbrev pub Supplied : Type 0 → Type 0
Supplied Z = List (ℕ × Z)

module _ {Z V : Type 0} where
  -- The loop over the array, from a position on.
  unfoldable pub collect_entries : Engine V → Bool → ℕ → List (Param × Z) → Result (Supplied Z)
  collect_entries e positional position [] = ok []
  collect_entries e positional position ((p, z) ∷ entries) =
      bind (if positional then ok position else resolve_param_index e p) (λ i.
        bind (collect_entries e positional (suc position) entries) (λ rest. ok ((i, z) ∷ rest)))

  -- `duckdb_collect_params`.
  abbrev pub collect_params : Engine V → Params Z → Result (Supplied Z)
  collect_params e p =
      if p.is_list && ltb e.nparams (length p.entries)
      then failed too_many_values
      else collect_entries e p.is_list 1 p.entries

-- A statement: what the engine holds for each index, and the typed values that are converted again for each
-- execution, in the order of their table.
pub record State (Z V : Type 0) : Type 0 where
  pub native : ℕ → Option V
  pub deferred : Supplied Z

abbrev pub set_native : {V : Type 0} → ℕ → V → (ℕ → Option V) → ℕ → Option V
set_native i v native j = if j == i then some v else native j

module _ {Z : Type 0} where
  -- `zend_hash_index_find`, `zend_hash_index_update` and `zend_hash_index_del`.
  abbrev pub find : ℕ → Supplied Z → Option Z
  find i [] = none
  find i ((j, z) ∷ table) = if j == i then some z else find i table

  abbrev pub update : ℕ → Z → Supplied Z → Supplied Z
  update i z [] = (i, z) ∷ []
  update i z ((j, y) ∷ table) = if j == i then (j, z) ∷ table else (j, y) ∷ update i z table

  abbrev pub delete : ℕ → Supplied Z → Supplied Z
  delete i [] = []
  delete i ((j, y) ∷ table) = if j == i then table else (j, y) ∷ delete i table

  abbrev pub is_supplied : ℕ → Supplied Z → Bool
  is_supplied i [] = false
  is_supplied i ((j, z) ∷ supplied) = j == i || is_supplied i supplied

  -- The deferred values that no supplied one overrides, behind those that are there.
  abbrev pub add_deferred : Supplied Z → Supplied Z → Supplied Z
  add_deferred [] supplied = supplied
  add_deferred ((i, z) ∷ deferred) supplied =
      if is_supplied i supplied
      then add_deferred deferred supplied
      else add_deferred deferred (supplied ++ (i, z) ∷ [])

  abbrev pub values_of : Supplied Z → List Z
  values_of [] = []
  values_of ((i, z) ∷ supplied) = z ∷ values_of supplied

  -- `duckdb_statement_retained::keep`.
  abbrev pub keep : Option Z → List Z → List Z
  keep none retained = retained
  keep (some z) retained = retained ++ z ∷ []

module _ {Z V : Type 0} where
  -- `duckdb_bind_converted`, with the native bindings it leaves.
  abbrev pub bind_converted :
      Engine V → Supplied Z → List V → (ℕ → Option V) → Bool × (ℕ → Option V)
  bind_converted e [] vs native = (true, native)
  bind_converted e ((i, z) ∷ supplied) [] native = (true, native)
  bind_converted e ((i, z) ∷ supplied) (v ∷ vs) native =
      let rest = bind_converted e supplied vs (set_native i v native) in
      if e.takes i v then rest else (false, native)

  -- The values that are supplied become deferred ones or take the place of deferred ones.
  abbrev pub defer_supplied :
      Conversion Z V → Supplied Z → Supplied Z → List Z → Supplied Z × List Z
  defer_supplied c [] deferred retained = (deferred, retained)
  defer_supplied c ((i, z) ∷ supplied) deferred retained =
      let retained' = keep (find i deferred) retained in
      defer_supplied c supplied
        (if c.contains_typed z then update i z deferred else delete i deferred) retained'

-- What an operation leaves: its error, if there is one, the statement, and the values that are released later.
pub record After (Z V : Type 0) : Type 0 where
  pub outcome : Option Error
  pub state : State Z V
  pub retained : List Z

module _ {Z V : Type 0} where
  abbrev pub stop : Error → State Z V → After Z V
  stop error s = record { outcome = some error; state = s; retained = [] }

  abbrev pub bound : Conversion Z V → Supplied Z → State Z V → Bool × (ℕ → Option V) → After Z V
  bound c supplied s (false, native) = stop not_bound (record s { native = native })
  bound c supplied s (true, native) =
      let (deferred, retained) = defer_supplied c supplied s.deferred [] in
      record {
        outcome = none;
        state = record { native = native; deferred = deferred };
        retained = retained;
      }

  abbrev pub bind_all :
      Engine V → Conversion Z V → Supplied Z → State Z V → Option (List V) → After Z V
  bind_all e c supplied s none = stop not_converted s
  bind_all e c supplied s (some vs) =
      bound c supplied s (bind_converted e (add_deferred s.deferred supplied) vs s.native)

  abbrev pub bind_supplied : Engine V → Conversion Z V → State Z V → Result (Supplied Z) → After Z V
  bind_supplied e c s (failed error) = stop error s
  bind_supplied e c s (ok supplied) =
      bind_all e c supplied s (c.convert (values_of (add_deferred s.deferred supplied)))

  abbrev pub collected : Engine V → Option (Params Z) → Result (Supplied Z)
  collected e none = ok []
  collected e (some p) = collect_params e p

  -- `duckdb_statement_bind_execution`.
  unfoldable pub bind_execution :
      Engine V → Conversion Z V → Option (Params Z) → State Z V → After Z V
  bind_execution e c params s = bind_supplied e c s (collected e params)

  abbrev pub after_bind : Engine V → ℕ → V → State Z V → After Z V
  after_bind e i v s =
      if e.takes i v
      then record {
        outcome = none;
        state = record { native = set_native i v s.native; deferred = delete i s.deferred };
        retained = keep (find i s.deferred) [];
      }
      else stop not_bound s

  abbrev pub bind_native : Engine V → ℕ → Option V → State Z V → After Z V
  bind_native e i none s = stop not_converted s
  bind_native e i (some v) s = after_bind e i v s

  abbrev pub bind_at :
      Engine V → Conversion Z V → Z → Bool → Option V → State Z V → Result ℕ → After Z V
  bind_at e c z as_blob v s (failed error) = stop error s
  bind_at e c z as_blob v s (ok i) =
      if not as_blob && c.contains_typed z
      then record {
        outcome = none;
        state = record s { deferred = update i z s.deferred };
        retained = keep (find i s.deferred) [];
      }
      else bind_native e i v s

  abbrev pub guarded :
      Engine V → Conversion Z V → Param → Z → Bool → Option V → State Z V → Option Error → After Z V
  guarded e c p z as_blob v s (some error) = stop error s
  guarded e c p z as_blob v s none = bind_at e c z as_blob v s (resolve_param_index e p)

  -- `duckdb_statement_bind_impl` on a value, with the native value that the engine makes of it, and what the guards find.
  unfoldable pub bind_impl :
      Engine V
      → Conversion Z V
      → Option Error
      → Param
      → Z
      → Bool
      → Bool
      → Option V
      → State Z V
      → After Z V
  bind_impl e c guard p z as_blob is_text v s =
      if as_blob && not is_text then stop not_text s else guarded e c p z as_blob v s guard

  abbrev pub cleared : State Z V → Option Error → After Z V
  cleared s (some error) = stop error s
  cleared s none = record {
    outcome = none;
    state = record { native = λ i. none; deferred = [] };
    retained = values_of s.deferred;
  }

  -- `Statement::clearBindings`.
  unfoldable pub clear_bindings : Option Error → State Z V → After Z V
  clear_bindings guard s = cleared s guard
