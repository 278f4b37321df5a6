-- ===== src/Helper/Tests.antt =====
-- The theorems on the helper at concrete runs.
use php_duckdb.Prelude.{◌≡◌, refl, true, false, [], ◌∷◌, ◌++◌, ◌&&◌}
use php_duckdb.Helper.{
  State, started, post, take_work, park, leave, request_stop, posts, takes, parks, leaves, stops,
  Steps, start, after,
}
use php_duckdb.Helper.Order.{posted-completed, exited-completed, is_some}

abbrev second_running : State
second_running = take_work 8 (post 8 (park 7 (take_work 7 (post 7 started))))

to_second : Steps second_running
to_second =
    after
      (after
        (after (after (after start (posts 7 refl refl)) (takes 7 refl refl refl)) (parks 7 refl))
        (posts 8 refl refl))
      (takes 8 refl refl refl)

posted-completed_example :
    (second_running.posted ≡ (7 ∷ []) ++ (8 ∷ []))
    × (second_running.busy ≡ true)
    × ((is_some second_running.work && is_some second_running.running) ≡ false)
posted-completed_example = posted-completed to_second

abbrev gone : State
gone = leave (request_stop (park 8 second_running))

to_gone : Steps gone
to_gone = after (after (after to_second (parks 8 refl)) stops) (leaves refl refl refl refl)

exited-completed_example : gone.posted ≡ 7 ∷ 8 ∷ []
exited-completed_example = exited-completed to_gone refl
