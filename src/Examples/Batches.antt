-- ===== src/Examples/Batches.antt =====
-- A batch of internal/notifications/concurrency.go: one index and one worker, which returns.
use kamacu.Common.{ℕ, ◌+◌, ◌*◌, ◌≤◌, ◌≡◌, refl, true, false, none, [], all, min, arith, ◌⊎◌}
use kamacu.Notifications.Concurrency.{
  done, Pool, start_pool, check, claim, return_from, Step, checks, claims, returns, Run, begin_,
  then_step,
}
use kamacu.Notifications.Concurrency.Invariant.{is_returned}
use kamacu.Notifications.Concurrency.Completion.{batch_complete}
use kamacu.Notifications.Concurrency.Bound.{batch_ends}

abbrev begun : Pool ℕ
begun = start_pool 1 4 false

abbrev after_call : Pool ℕ
after_call = return_from 0 none [] [] (claim 1 [] [] (check 9 [] [] begun))

abbrev over : Pool ℕ
over = claim 1 [] [] (check 9 [] [] after_call)

all_of_it : Run 9 1 begun 5 over
unfolding check claim return_from
all_of_it =
    then_step
      (then_step
        (then_step (then_step (then_step begin_ (checks [] [] refl)) (claims [] [] refl))
          (returns 0 none [] [] refl))
        (checks [] [] refl))
      (claims [] [] refl)

batch_complete_example : over.slots 0 ≡ done
unfolding check claim return_from
batch_complete_example =
    batch_complete 9 1 4 false 0 (omega arith) all_of_it refl refl (omega arith)

batch_ends_example :
    (5 ≤ 4 * 1 + 3 * min 1 4 + 1)
    × ((all is_returned over.workers ≡ true) ⊎ ((q : Pool ℕ) × Step 9 1 over q))
batch_ends_example = batch_ends 9 1 4 false all_of_it
