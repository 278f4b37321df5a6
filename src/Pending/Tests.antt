-- ===== src/Pending/Tests.antt =====
-- Tasks at concrete steps.
use php_duckdb.Prelude.{
  ◌⊎◌, ℕ, ◌+◌, ◌≡◌, inl, refl, true, false, List, [], ◌∷◌, Option, none, some, codes,
}
use php_duckdb.Pending.{
  failed, thread_query, Task, threaded_task, polled_task, begin_run, settle_run, publish_run, Slice,
  unfinished, finished, complete, thrown, await_steps, cancel, drop_task, begins, settles,
  publishes, cancels, Steps, threaded, after,
}
use php_duckdb.Pending.Ledger.{OwnQuery, holds_lock, drop_task-settles, interrupts-locked}
use php_duckdb.Pending.Await.{await-first_answer}

-- A query on a worker that begins, is cancelled, fails and ends.
abbrev begun : Task
begun = begin_run (threaded_task thread_query)

abbrev cancelled : Task
cancelled = (cancel true false begun).0

abbrev ended : Task
ended = publish_run (settle_run (some (failed (codes "no"))) false cancelled)

cancelled-Steps : Steps cancelled
unfolding cancel
cancelled-Steps = after (after (threaded thread_query refl) (begins refl)) (cancels true false)

ended-Steps : Steps ended
unfolding cancel
ended-Steps =
    after (after cancelled-Steps (settles false (some (failed (codes "no"))) refl)) (publishes refl)

drop_task-settles_example :
    ((drop_task ended).record_open ≡ false)
    × ((drop_task ended).made ≡ (drop_task ended).released + (drop_task ended).handed)
drop_task-settles_example = drop_task-settles ended ended-Steps

interrupts-locked_example : (holds_lock cancelled.worker ≡ true) ⊎ OwnQuery false cancelled
unfolding cancel
interrupts-locked_example = interrupts-locked cancelled true false cancelled-Steps (inl refl)

abbrev slices : List (Slice × Option ℕ)
slices =
    (unfinished, none) ∷ (unfinished, some 4) ∷ (finished (some (failed (codes "no"))), none) ∷ []

await-first_answer_example :
    ((await_steps slices polled_task).done ≡ true)
    × ((complete (await_steps slices polled_task)).1 ≡ thrown (failed (codes "no")))
await-first_answer_example = await-first_answer slices (thrown (failed (codes "no"))) refl

released_once : (drop_task ended).released ≡ 1
unfolding cancel drop_task
released_once = refl
