-- ===== src/SessionMap/Tests.antt =====
-- The theorems on published sessions at concrete maps.
use php_duckdb.Prelude.{◌≡◌, true, [], ◌∷◌, some}
use php_duckdb.SessionMap.{session_find, unpublish}
use php_duckdb.SessionMap.Publication.{unpublish-found}

unpublish-found_example :
    session_find (λ s. true) 3 (unpublish (λ s. true) 3 4 ((3, 9) ∷ [])) ≡ some 9
unfolding session_find
unpublish-found_example = unpublish-found (λ s. true) 3 4 3 ((3, 9) ∷ [])
