-- ===== src/TypeGrammar/Tests.antt =====
-- Declarations that the grammar takes, and some that it refuses.
use php_duckdb.Prelude.{ℕ, suc, ◌≡◌, ◌≢◌, refl, [], ◌∷◌, Bytes, codes}
use php_duckdb.TypeLexer
use php_duckdb.TypeGrammar.{lexical}
use php_duckdb.TypeLexer.{Token, word_kind, number_kind, quote, tokenize, tokens}
use php_duckdb.TypeGrammar.{
  canonical, rejected, canonicalize, malformed, nesting_limit, expected_unit, out_of_rounds,
}
use php_duckdb.TypeGrammar.Declared.{
  mark, number_token, word_name, quoted_name, first_word, no_dots, names, double_precision,
  first_one, after_comma, no_array, array, sized_array, TypeOf, a_type, bare, enclosed, closed,
  one_more, a_field, an_element,
}
use php_duckdb.TypeGrammar.Reading.{canonicalize-TypeOf}
use php_duckdb.TypeGrammar.Progress.{canonicalize-answers}

abbrev declared : Bytes
declared = codes "struct( \"a b\" integer[3],c map(varchar,double precision) [])"

abbrev word_token : Bytes → Token
word_token text = record { text = text; kind = word_kind }

simple_name :
    (levels : ℕ) → TypeOf (suc levels) (word_token (codes "varchar") ∷ []) (codes "VARCHAR")
simple_name levels = a_type (names (first_word refl refl refl) no_dots refl) bare no_array

sized_integer :
    (levels : ℕ)
    → TypeOf
        (suc (suc levels))
        (word_token (codes "integer") ∷ mark b'[' ∷ number_token (codes "3") ∷ mark b']' ∷ [])
        (codes "INTEGER[3]")
sized_integer levels =
    a_type (names (first_word refl refl refl) no_dots refl) bare (sized_array no_array)

double :
    (levels : ℕ)
    → TypeOf
        (suc levels)
        (word_token (codes "double") ∷ word_token (codes "precision") ∷ [])
        (codes "DOUBLE PRECISION")
double levels =
    a_type
      (double_precision (record { is_word = refl; is_upper = refl }, refl)
        (record { is_word = refl; is_upper = refl }))
      bare no_array

a_map :
    (levels : ℕ)
    → TypeOf
        (suc (suc levels))
        (word_token (codes "map")
          ∷ mark b'('
          ∷ word_token (codes "varchar")
          ∷ mark b','
          ∷ word_token (codes "double")
          ∷ word_token (codes "precision")
          ∷ mark b')'
          ∷ mark b'['
          ∷ mark b']'
          ∷ [])
        (codes "MAP(VARCHAR, DOUBLE PRECISION)[]")
a_map levels =
    a_type (names (first_word refl refl refl) no_dots refl)
      (enclosed (
        one_more first_one (an_element refl refl (simple_name levels))
          (one_more after_comma (an_element refl refl (double levels)) closed)))
      (array no_array)

canonicalize-TypeOf_example :
    canonicalize declared
    ≡ canonical (codes "STRUCT(\"a b\" INTEGER[3], c MAP(VARCHAR, DOUBLE PRECISION)[])")
unfolding tokenize php_duckdb.TypeLexer.lex php_duckdb.TypeLexer.scan
canonicalize-TypeOf_example = canonicalize-TypeOf declared refl (
    a_type (names (first_word refl refl refl) no_dots refl)
      (enclosed (
        one_more first_one
          (a_field {t = record { text = codes "a b"; kind = b'"' }} refl (quoted_name refl)
            (sized_integer _))
          (one_more after_comma
            (a_field {t = word_token (codes "c")} refl (word_name refl) (a_map _)) closed)))
      no_array)

canonicalize-answers_example :
    (canonicalize (codes "DECIMAL(18") ≢ rejected out_of_rounds)
    × (canonicalize (codes "DECIMAL(18") ≢ rejected (lexical TypeLexer.out_of_rounds))
canonicalize-answers_example = canonicalize-answers (codes "DECIMAL(18")

half_interval : canonicalize (codes "interval year to") ≡ rejected expected_unit
unfolding canonicalize tokenize php_duckdb.TypeLexer.lex php_duckdb.TypeLexer.scan
    php_duckdb.TypeGrammar.type php_duckdb.TypeGrammar.dotted
half_interval = refl

open_bracket : canonicalize (codes "a.\"b\"[3,") ≡ rejected malformed
unfolding canonicalize tokenize php_duckdb.TypeLexer.lex php_duckdb.TypeLexer.scan
    php_duckdb.TypeGrammar.type php_duckdb.TypeGrammar.dotted php_duckdb.TypeGrammar.arrays
open_bracket = refl
