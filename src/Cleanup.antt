-- ===== src/Cleanup.antt =====
-- internal/api/cleanup.go: the gated removal of a worktree, for the browser and for the reaper. Git,
-- tmux, the file system and the processes are a machine `G` that the operations read and change; the
-- statements of the database succeed.
mod Removal
pub mod Gates
pub use Removal.{Failure, Cleanup, removed, failed, refused, blocked, classify_remove_blocked}
use kamacu.Common.{
  ℕ, Bool, true, false, not, ◌&&◌, ◌||◌, Option, none, some, List, [], ◌∷◌, String, Text, codes,
  if◌then◌else◌, ltb, ◌==◌, update_where,
}

-- The columns of `tasks` and of its project that the cleanup reads or writes. A NULL number is 0.
pub record Task : Type 0 where
  pub id : ℕ
  pub source : String
  pub status : String
  pub done_at : Option ℕ
  pub pr_number : ℕ
  pub branch : Option Text
  pub worktree_path : Option Text
  pub worktree_error : Option Text
  pub repo_path : Text
  pub github_repo : Option Text

-- `worktree.Service`, `tmux.Client` and `session.Manager` as far as the cleanup calls them; `none` is
-- an error. `has_session` is a conclusive yes.
pub record Machine (G : Type 0) : Type 0 where
  pub exists : G → Text → Bool
  pub dirty_count : G → Text → Option ℕ
  pub unpushed_count : G → Text → Text → Option ℕ
  pub stash_count : G → Text → Option ℕ
  pub resolve_base : G → Text → Option Text
  pub fetch_pull_head : G → Text → ℕ → G × Bool
  pub remove : G → Text → Text → Bool → G × Option Failure
  pub stop_all_for_task : G → ℕ → G
  pub list_by_task : G → ℕ → List Bool
  pub has_session : G → String → Bool
  pub kill_session : G → String → G
  pub has_live_tmux : G → String → Bool

-- The tables, the `tmux_sessions` as names with their task, and the machine.
pub record Host (G : Type 0) : Type 0 where
  pub tasks : List Task
  pub tmux_sessions : List (String × ℕ)
  pub machine : G

abbrev pub has_task_id : ℕ → Task → Bool
has_task_id id t = t.id == id

abbrev pub without_worktree : Task → Task
without_worktree t = record t { branch = none; worktree_path = none; worktree_error = none }

module _ {G : Type 0} where
  abbrev pub kill_all : Machine G → List String → G → G
  kill_all m [] g = g
  kill_all m (name ∷ names) g = kill_all m names (m.kill_session g name)

  abbrev pub null_columns : ℕ → Host G → Host G
  null_columns id s =
      if ltb 0 id
      then record s { tasks = update_where (has_task_id id) without_worktree s.tasks }
      else s

  -- What follows `wt.Remove`.
  abbrev pub conclude_removal : ℕ → Text → G × Option Failure → Host G → Host G × Cleanup
  conclude_removal id path (g, none) s = (null_columns id (record s { machine = g }), removed)
  conclude_removal id path (g, some f) s =
      (record s { machine = g }, classify_remove_blocked f path)

  -- The count of changes that is asked only of a directory that is there, and not by force.
  abbrev pub dirty_at : Machine G → Bool → Text → G → Option ℕ
  dirty_at m force path g = if m.exists g path && not force then m.dirty_count g path else some 0

  -- `CleanupWorktreeGated`. `live` are the tmux sessions that the caller probed.
  unfoldable pub cleanup_worktree_gated :
      Machine G → List String → ℕ → Text → Text → ℕ → Bool → Bool → Host G → Host G × Cleanup
  cleanup_worktree_gated m live id repo path session_count stop_sessions force s =
      if ltb 0 session_count && not stop_sessions
      then (s, refused "sessions running")
      else elim (dirty_at m force path s.machine) [
        | none ↦ (s, failed)
        | some dirty ↦
            if ltb 0 dirty && not force
            then (s, refused "worktree has uncommitted changes")
            else let stopped : G = kill_all m live (m.stop_all_for_task s.machine id) in
              conclude_removal id path (m.remove stopped repo path force) s
      ]
