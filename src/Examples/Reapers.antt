-- ===== src/Examples/Reapers.antt =====
-- Runs of internal/reaper and internal/api/cleanup.go: the machine counts the removals; one worktree is
-- dirty, and no session runs but in task 4.
use kamacu.Common.{
  ℕ, ◌+◌, ◌-◌, ◌/◌, ◌≡◌, refl, true, false, Option, none, some, List, [], ◌∷◌, String, Text, codes,
  text_eq, if◌then◌else◌, ◌==◌, find, All, ◌⊎◌,
}
use kamacu.Cleanup.{Task, Machine, Host, has_task_id}
use kamacu.Reaper.{
  lasts, is_final, is_zero, fetch_head, session_count, parse_done_session_ttl, PrTask, DoneTask,
  reap_once, reconcile_pr, cleanup_done, tick,
}
use kamacu.Reaper.Safety.{IsIdle, reconcile_pr_guarded, cleanup_done_guarded}
use kamacu.Reaper.Ticks.{tick_spares}
use kamacu.Reaper.Stops.{SubList, IsLongDone, stop_each, reaped_only_expired}

abbrev machine : Machine ℕ
machine = record {
  exists = λ g path. true;
  dirty_count = λ g path. some (if text_eq path (codes "/d") then 2 else 0);
  unpushed_count = λ g path base. some 0;
  stash_count = λ g path. some 0;
  resolve_base = λ g repo. some (codes "main");
  fetch_pull_head = λ g path n. (g, true);
  remove = λ g repo path force. (g + 1, none);
  stop_all_for_task = λ g id. g;
  list_by_task = λ g id. if id == 4 then true ∷ [] else [];
  has_session = λ g name. false;
  kill_session = λ g name. g;
  has_live_tmux = λ g name. false;
}

abbrev review : Task
review = record {
  id = 3;
  source = "github_pr";
  status = "todo";
  done_at = none;
  pr_number = 17;
  branch = some (codes "b");
  worktree_path = some (codes "/w");
  worktree_error = none;
  repo_path = codes "/r";
  github_repo = some (codes "o/r");
}

abbrev manual : Task
manual = record review {
  id = 4;
  source = "manual";
  status = "in_progress";
  worktree_path = some (codes "/d");
}

abbrev finished : Task
finished = record manual {
  id = 5;
  status = "done";
  done_at = some 1000;
  worktree_path = some (codes "/f");
}

abbrev host : Host ℕ
host = record { tasks = review ∷ manual ∷ finished ∷ []; tmux_sessions = []; machine = 0 }

abbrev merged : ℕ → Text → ℕ → Option String
merged g repo n = some "MERGED"

abbrev one_hour : Text → Option ℕ
one_hour v = some 3600000000000

abbrev review_task : PrTask
review_task = record {
  id = 3;
  n = 17;
  wt_path = codes "/w";
  repo = codes "o/r";
  repo_dir = codes "/r";
}

abbrev finished_task : DoneTask
finished_task = record { id = 5; path = codes "/f"; repo = codes "/r" }

reconcile_pr_guarded_example :
    (reconcile_pr machine merged review_task host ≡ host)
    ⊎ ((reconcile_pr machine merged review_task host ≡ host)
        ⊎ ((state : String) × (merged 0 (codes "o/r") 17 ≡ some state)
            × (is_final state ≡ true)
            × (is_zero (machine.dirty_count 0 (codes "/w")) ≡ true)
            × ((machine.fetch_pull_head 0 (codes "/w") 17).1 ≡ true)
            × (is_zero (machine.unpushed_count 0 (codes "/w") fetch_head) ≡ true)
            × (is_zero (machine.stash_count 0 (codes "/w")) ≡ true)
            × (session_count machine 3 host ≡ 0)))
reconcile_pr_guarded_example = reconcile_pr_guarded machine merged review_task host

cleanup_done_guarded_example :
    (cleanup_done machine finished_task host ≡ host)
    ⊎ ((base : Text) × (machine.resolve_base 0 (codes "/r") ≡ some base)
        × IsIdle machine 5 (codes "/f") base host)
cleanup_done_guarded_example = cleanup_done_guarded machine finished_task host

tick_spares_example :
    find (has_task_id 4) (tick machine one_hour (some (codes "1h")) merged 9000000000000 host).tasks
    ≡ some manual
tick_spares_example =
    tick_spares machine one_hour (some (codes "1h")) merged 9000000000000 4 host refl refl

reaped_only_expired_example :
    (reap_once machine one_hour (some (codes "1h")) 9000000000000 host ≡ host)
    ⊎ ((ttl : ℕ) × (parse_done_session_ttl one_hour (codes "1h") ≡ lasts ttl)
        × (stopped : List Task) × SubList stopped host.tasks
        × All (IsLongDone ((9000000000000 - ttl) / 1000000)) stopped
        × (reap_once machine one_hour (some (codes "1h")) 9000000000000 host
            ≡ record host { machine = stop_each machine stopped host.machine }))
reaped_only_expired_example = reaped_only_expired machine one_hour (codes "1h") 9000000000000 host
