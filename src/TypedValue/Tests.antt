-- ===== src/TypedValue/Tests.antt =====
-- Snapshots of an array with a typed value inside, and of one that holds itself.
use php_duckdb.Prelude.{◌≡◌, ◌↔◌, refl, true, [], ◌∷◌, none, some, codes, ◌==◌, if◌then◌else◌}
use php_duckdb.Prelude.Int.{pos}
use php_duckdb.TypeGrammar.{canonicalize, canonical}
use php_duckdb.TypedValue.{
  at_index, at_name, scalar, array, value_object, held, reference, Heap, a_scalar, a_value,
  an_array, no_copies, a_copy, cyclic, ok, failed, snapshot, Value, initialize, Copy,
}
use php_duckdb.TypedValue.Initialize.{Initialized, initialize_iff}

-- Array 1 holds a reference to array 2 twice, array 2 a plain value and a typed one; array 3 holds itself.
abbrev some_heap : Heap
some_heap = record {
  elements = λ a.
      if a == 1
      then (at_index (pos 0), reference 0) ∷ (at_index (pos 1), held (array 2)) ∷ []
      else if a == 2
      then (at_name (codes "n"), held (scalar 5))
        ∷ (at_name (codes "v"), held (value_object 8))
        ∷ []
      else (at_index (pos 0), held (array 3)) ∷ [];
  referent = λ r. array 2;
  is_initialized = λ i. true;
  interval_of = λ i. (0, 0, 0);
  time_of = λ i. none;
  date_made = λ t. true;
}

abbrev inner_copy : Copy
inner_copy =
    an_array (
      a_copy (at_name (codes "n")) (a_scalar 5)
        (a_copy (at_name (codes "v")) (a_value 8) no_copies))

abbrev whole_copy : Copy
whole_copy =
    an_array (a_copy (at_index (pos 0)) inner_copy (a_copy (at_index (pos 1)) inner_copy no_copies))

holds_itself : snapshot some_heap 65 [] (held (array 3)) ≡ failed cyclic
unfolding snapshot
holds_itself = refl

abbrev new_value : Value
new_value = record { type = none; input = none }

initialize_iff_example :
    (initialize some_heap (codes "map(varchar, json)") (held (array 1)) new_value
      ≡ ok (record { type = some (codes "MAP(VARCHAR, JSON)"); input = some whole_copy }))
    ↔ Initialized some_heap
        (codes "map(varchar, json)")
        (held (array 1))
        new_value
        (record { type = some (codes "MAP(VARCHAR, JSON)"); input = some whole_copy })
initialize_iff_example =
    initialize_iff some_heap (codes "map(varchar, json)") (held (array 1)) new_value
      (record { type = some (codes "MAP(VARCHAR, JSON)"); input = some whole_copy })

typed_whole :
    initialize some_heap (codes "map(varchar, json)") (held (array 1)) new_value
    ≡ ok (record { type = some (codes "MAP(VARCHAR, JSON)"); input = some whole_copy })
unfolding initialize snapshot canonicalize php_duckdb.TypeLexer.tokenize php_duckdb.TypeLexer.lex
    php_duckdb.TypeLexer.scan php_duckdb.TypeGrammar.type php_duckdb.TypeGrammar.dotted
    php_duckdb.TypeGrammar.arrays php_duckdb.TypeGrammar.parameters
typed_whole = refl
