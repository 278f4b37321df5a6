-- ===== src/Statement/Tests.antt =====
-- The bindings of a statement with two parameters.
use mathlib.Core.Path.{subst}
use php_duckdb.Prelude.{
  ℕ, ◌+◌, ◌≡◌, inl, inr, refl, sym, false, List, [], ◌∷◌, Option, none, some, arith, codes, ltb,
  leb, ◌==◌, ==_iff, if◌then◌else◌, Bool-cases, bytes_eq,
}
use php_duckdb.Prelude.Int.{pos}
use php_duckdb.Statement.{
  Engine, Conversion, Error, unknown_name, Result, ok, failed, by_position, by_name, other,
  resolve_param_index, Params, Supplied, State, After, find, bind_execution, bind_impl, collected,
  values_of,
}
use php_duckdb.Statement.Native.{map_values}
use php_duckdb.Statement.Given.{
  Given, unset, fixed, typed, Matches, Represents, used, supply, ConvertsEach,
  bind_execution-Represents,
}
use php_duckdb.Statement.Changes.{set_given, as_given, bind_impl-Represents}
use php_duckdb.Statement.Release.{
  Undone, IsKept, Operation, binds, perform, bind_execution-Undone, perform-Kept,
}

-- Two parameters, the second one with the name x.
abbrev two_parameters : Engine ℕ
two_parameters = record {
  nparams = 2;
  parameter_index = λ name. if bytes_eq name (codes "x") then some 2 else none;
  takes = λ i v. ltb i 3;
}

abbrev plus_ten : ℕ → ℕ
plus_ten z = z + 10

abbrev all_converted : List ℕ → List ℕ
all_converted [] = []
all_converted (z ∷ zs) = plus_ten z ∷ all_converted zs

-- Values from 100 on are typed.
abbrev adding : Conversion ℕ ℕ
adding = record { contains_typed = λ z. leb 100 z; convert = λ zs. some (all_converted zs) }

abbrev statement : State ℕ ℕ
statement = record { native = λ i. if i == 1 then some 7 else none; deferred = (2, 100) ∷ [] }

abbrev given : ℕ → Given ℕ ℕ
given i = if i == 2 then typed 100 else if i == 1 then fixed 7 else unset

statement-Represents : Represents statement given
statement-Represents = (
  (refl, tt),
  λ i. elim (Bool-cases (i == 2)) [
    | inl e ↦
        subst (λ k. Matches (given k) (find k statement.deferred) (statement.native k))
          (sym ((==_iff i 2).0 e)) refl
    | inr e ↦ elim (Bool-cases (i == 1)) [
      | inl f ↦
          subst (λ k. Matches (given k) (find k statement.deferred) (statement.native k))
            (sym ((==_iff i 1).0 f)) (refl, refl)
      | inr f ↦ let g : (2 == i) ≡ false = grind arith in rw (e, f, g) (refl, refl)
    ]
  ],
)

each_converted : (xs : Supplied ℕ) → all_converted (values_of xs) ≡ map_values plus_ten xs
each_converted [] = refl
each_converted ((i, z) ∷ xs) = rw (each_converted xs) refl

adding-ConvertsEach : ConvertsEach adding plus_ten
adding-ConvertsEach xs vs h = let e = each_converted xs in cc

abbrev named : Option (Params ℕ)
named = some (record {
  is_list = false;
  entries = (by_name (codes "$x"), 5) ∷ (by_position (pos 1), 200) ∷ [];
})

bind_execution-Represents_example :
    (supplied : Supplied ℕ) × (collected two_parameters named ≡ ok supplied)
    × Represents
        (bind_execution two_parameters adding named statement).state
        (supply adding plus_ten supplied given)
    × ((i : ℕ)
        → (bind_execution two_parameters adding named statement).state.native i
          ≡ used plus_ten (supply adding plus_ten supplied given i))
unfolding bind_execution php_duckdb.Statement.collect_entries
bind_execution-Represents_example =
    bind_execution-Represents two_parameters adding plus_ten named statement given
      adding-ConvertsEach statement-Represents refl

bind_impl-Represents_example :
    (i : ℕ) × (resolve_param_index two_parameters (by_position (pos 1)) ≡ ok i)
    × Represents
        (bind_impl two_parameters adding none
          (by_position (pos 1))
          9
          false
          false
          (some 19)
          statement).state
        (set_given i (as_given adding 9 false (some 19)) given)
unfolding bind_impl
bind_impl-Represents_example =
    bind_impl-Represents two_parameters adding none (by_position (pos 1)) 9 false false (some 19)
      statement given statement-Represents refl

abbrev misnamed : Option (Params ℕ)
misnamed = some (record {
  is_list = false;
  entries = (by_position (pos 1), 200) ∷ (by_name (codes "y"), 5) ∷ [];
})

bind_execution-Undone_example :
    Undone unknown_name statement (bind_execution two_parameters adding misnamed statement).state
unfolding bind_execution php_duckdb.Statement.collect_entries
bind_execution-Undone_example =
    bind_execution-Undone two_parameters adding misnamed statement unknown_name refl

-- A number is bound in the place of the typed value of the second parameter.
abbrev replacing : Operation ℕ ℕ
replacing = binds none (by_name (codes "x")) 1 false false (some 1)

perform-Kept_example : IsKept 2 100 (perform two_parameters adding replacing statement)
perform-Kept_example = perform-Kept two_parameters adding replacing statement 2 100 (refl, tt) refl
