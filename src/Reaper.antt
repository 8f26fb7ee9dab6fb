-- ===== src/Reaper.antt =====
-- internal/reaper/reaper.go: the three passes of a tick. Nothing else changes the machine or the
-- tables during a tick; log lines are left out.
pub mod Safety
pub mod Ticks
pub mod Stops
use kamacu.Common.{
  ℕ, ◌-◌, ◌/◌, Bool, true, false, not, ◌&&◌, ◌||◌, Option, none, some, List, [], ◌∷◌, String, Text,
  codes, str_eq, if◌then◌else◌, ltb, ◌==◌, is_some, is_nil, any, text_eq, length, keep, map, ◌++◌,
  trim_space, ◌+◌, delete_where,
}
use kamacu.Cleanup.{
  Task, Machine, Host, Cleanup, removed, refused, blocked, failed, has_task_id,
  cleanup_worktree_gated,
}

-- The result of `settings.ParseDoneSessionTTL`, in nanoseconds.
pub data Ttl : Type 0 where
  invalid disabled : Ttl
  lasts : ℕ → Ttl

-- `parse_duration` is `time.ParseDuration`: `none` is an error, and 0 stands for no positive duration.
unfoldable pub parse_done_session_ttl : (Text → Option ℕ) → Text → Ttl
parse_done_session_ttl parse_duration value =
    let v = trim_space value in
    if is_nil v || text_eq v (codes "0") || text_eq v (codes "never")
    then disabled
    else elim (parse_duration v) [ none ↦ invalid | some d ↦ if d == 0 then disabled else lasts d ]

-- Done, and behind the cutoff in milliseconds.
abbrev pub is_expired : ℕ → Task → Bool
is_expired cutoff t =
    str_eq t.status "done" && elim t.done_at [ none ↦ false | some at ↦ ltb at cutoff ]

-- `prTask`.
pub record PrTask : Type 0 where
  pub id : ℕ
  pub n : ℕ
  pub wt_path : Text
  pub repo : Text
  pub repo_dir : Text

abbrev pub pr_task : Task → List PrTask
pr_task t =
    if str_eq t.source "github_pr"
    then elim t.worktree_path [
      | none ↦ []
      | some path ↦ elim t.github_repo [
        | none ↦ []
        | some repo ↦
            record {
              id = t.id;
              n = t.pr_number;
              wt_path = path;
              repo = repo;
              repo_dir = t.repo_path;
            }
            ∷ []
      ]
    ]
    else []

-- The `SELECT` of the second pass.
abbrev pub pr_tasks : List Task → List PrTask
pr_tasks [] = []
pr_tasks (t ∷ ts) = pr_task t ++ pr_tasks ts

pub record DoneTask : Type 0 where
  pub id : ℕ
  pub path : Text
  pub repo : Text

abbrev pub done_task : Task → List DoneTask
done_task t =
    if str_eq t.status "done"
    then elim t.worktree_path [
      | none ↦ []
      | some path ↦ record { id = t.id; path = path; repo = t.repo_path } ∷ []
    ]
    else []

abbrev pub done_tasks : List Task → List DoneTask
done_tasks [] = []
done_tasks (t ∷ ts) = done_task t ++ done_tasks ts

-- No error, and nothing counted.
abbrev pub is_zero : Option ℕ → Bool
is_zero none = false
is_zero (some n) = n == 0

abbrev pub fetch_head : Text
fetch_head = codes "FETCH_HEAD"

abbrev pub is_final : String → Bool
is_final state = str_eq state "MERGED" || str_eq state "CLOSED"

module _ {G : Type 0} (m : Machine G) where
  abbrev pub is_running_task : ℕ → G → Bool
  is_running_task id g = any (λ running. running) (m.list_by_task g id)

  -- The loop of `reapOnce` over the expired tasks.
  abbrev pub stop_expired : List Task → G → G
  stop_expired [] g = g
  stop_expired (t ∷ ts) g =
      stop_expired ts (if is_running_task t.id g then m.stop_all_for_task g t.id else g)

  -- `reapOnce`, at `now` in nanoseconds; `raw` is the setting, if it could be read.
  unfoldable pub reap_once : (Text → Option ℕ) → Option Text → ℕ → Host G → Host G
  reap_once parse_duration none now s = s
  reap_once parse_duration (some raw) now s = elim (parse_done_session_ttl parse_duration raw) [
    | invalid ↦ s
    | disabled ↦ s
    | lasts ttl ↦ record s {
      machine = stop_expired (keep (is_expired ((now - ttl) / 1000000)) s.tasks) s.machine;
    }
  ]

  abbrev pub running_sessions : ℕ → G → ℕ
  running_sessions id g = length (keep (λ running. running) (m.list_by_task g id))

  abbrev pub live_tmux_names : ℕ → Host G → List String
  live_tmux_names id s =
      keep (m.has_session s.machine)
        (map (λ row. row.0) (keep (λ row. row.1 == id) s.tmux_sessions))

  abbrev pub extra_live_tmux : ℕ → Host G → ℕ
  extra_live_tmux id s =
      length (keep (λ name. not (m.has_live_tmux s.machine name)) (live_tmux_names id s))

  abbrev pub session_count : ℕ → Host G → ℕ
  session_count id s = running_sessions id s.machine + extra_live_tmux id s

  abbrev pub gated : ℕ → Text → Text → Host G → Host G × Cleanup
  gated id repo path s =
      cleanup_worktree_gated m (live_tmux_names id s) id repo path (session_count id s) false false
        s

  -- The row of a removed review goes, with the tmux rows before it.
  abbrev pub delete_review : ℕ → Host G × Cleanup → Host G
  delete_review id (s, removed) = record s {
    tmux_sessions = delete_where (λ row. row.1 == id) s.tmux_sessions;
    tasks = delete_where (has_task_id id) s.tasks;
  }
  delete_review id (s, _) = s

  -- The gates of a review behind the fetch of its head.
  abbrev pub is_pushed : PrTask → G × Bool → Bool
  is_pushed t (g, fetched) =
      fetched
      && is_zero (m.unpushed_count g t.wt_path fetch_head)
      && is_zero (m.stash_count g t.wt_path)

  -- The body of the loop of `reconcilePRsOnce`.
  unfoldable pub reconcile_pr : (G → Text → ℕ → Option String) → PrTask → Host G → Host G
  reconcile_pr pr_state t s =
      let fetch = m.fetch_pull_head s.machine t.wt_path t.n in
      let fresh : Host G = record s { machine = fetch.0 } in
      elim (pr_state s.machine t.repo t.n) [
        | none ↦ s
        | some state ↦
            if not (is_final state)
            then s
            else if not (is_zero (m.dirty_count s.machine t.wt_path))
            then s
            else if not (is_pushed t fetch)
            then fresh
            else delete_review t.id (gated t.id t.repo_dir t.wt_path fresh)
      ]

  abbrev pub reconcile_all : (G → Text → ℕ → Option String) → List PrTask → Host G → Host G
  reconcile_all pr_state [] s = s
  reconcile_all pr_state (t ∷ ts) s = reconcile_all pr_state ts (reconcile_pr pr_state t s)

  unfoldable pub reconcile_prs_once : (G → Text → ℕ → Option String) → Host G → Host G
  reconcile_prs_once pr_state s = reconcile_all pr_state (pr_tasks s.tasks) s

  -- The body of the loop of `cleanupDoneOnce`.
  unfoldable pub cleanup_done : DoneTask → Host G → Host G
  cleanup_done t s =
      if not (is_zero (m.dirty_count s.machine t.path))
      then s
      else if not (is_zero (m.stash_count s.machine t.path))
      then s
      else elim (m.resolve_base s.machine t.repo) [
        | none ↦ s
        | some base ↦
            if not (is_zero (m.unpushed_count s.machine t.path base))
            then s
            else (gated t.id t.repo t.path s).0
      ]

  abbrev pub cleanup_all : List DoneTask → Host G → Host G
  cleanup_all [] s = s
  cleanup_all (t ∷ ts) s = cleanup_all ts (cleanup_done t s)

  unfoldable pub cleanup_done_once : Host G → Host G
  cleanup_done_once s = cleanup_all (done_tasks s.tasks) s

  -- One turn of `Run`.
  unfoldable pub tick :
      (Text → Option ℕ) → Option Text → (G → Text → ℕ → Option String) → ℕ → Host G → Host G
  tick parse_duration raw pr_state now s =
      reconcile_prs_once pr_state (cleanup_done_once (reap_once parse_duration raw now s))
