-- ===== src/Reaper/Safety.antt =====
-- What the passes of internal/reaper/reaper.go may remove.
use kamacu.Common.{
  ℕ, ◌≡◌, true, false, ◌&&◌, Option, some, String, Text, ◌==◌, Bool-cases, Option-cases, inl, inr,
  ◌⊎◌, arith,
}
use kamacu.Cleanup.{Machine, Host, Cleanup, removed, refused, blocked, failed}
use kamacu.Cleanup.Gates.{is_removed, closed_gate_untouched}
use kamacu.Reaper.{
  PrTask, DoneTask, is_zero, fetch_head, is_final, is_pushed, session_count, live_tmux_names, gated,
  delete_review, reconcile_pr, cleanup_done,
}

module _ {G : Type 0} (m : Machine G) where
  -- Nothing in a worktree can be lost and nothing runs in it.
  pub record IsIdle (id : ℕ) (path base : Text) (s : Host G) : Type 0 where
    pub clean : is_zero (m.dirty_count s.machine path) ≡ true
    pub pushed : is_zero (m.unpushed_count s.machine path base) ≡ true
    pub unstashed : is_zero (m.stash_count s.machine path) ≡ true
    pub stopped : session_count m id s ≡ 0

  delete_review_kept :
      (id : ℕ) (s : Host G) (r : Host G × Cleanup)
      → r.0 ≡ s
      → is_removed r.1 ≡ false
      → delete_review m id r ≡ s
  delete_review_kept id s (t, removed) same h = absurd (ground (arith, h))
  delete_review_kept id s (t, failed) same h = same
  delete_review_kept id s (t, refused why) same h = same
  delete_review_kept id s (t, blocked path) same h = same

  -- A review's worktree goes only if its pull request is merged or closed, it is clean, the fetch of
  -- the pull request's head succeeds, all of it is in the head so fetched, nothing is stashed and no session of the task runs. Otherwise the
  -- host is as it was, but for the fetch.
  pub reconcile_pr_guarded :
      (pr_state : G → Text → ℕ → Option String) (t : PrTask) (s : Host G)
      → let fresh : Host G = record s { machine = (m.fetch_pull_head s.machine t.wt_path t.n).0 } in
        (reconcile_pr m pr_state t s ≡ s)
        ⊎ ((reconcile_pr m pr_state t s ≡ fresh)
            ⊎ ((state : String) × (pr_state s.machine t.repo t.n ≡ some state)
                × (is_final state ≡ true)
                × (is_zero (m.dirty_count s.machine t.wt_path) ≡ true)
                × ((m.fetch_pull_head s.machine t.wt_path t.n).1 ≡ true)
                × (is_zero (m.unpushed_count fresh.machine t.wt_path fetch_head) ≡ true)
                × (is_zero (m.stash_count fresh.machine t.wt_path) ≡ true)
                × (session_count m t.id fresh ≡ 0)))
  unfolding reconcile_pr
  reconcile_pr_guarded pr_state t s =
      let fetch = m.fetch_pull_head s.machine t.wt_path t.n in
      let fresh : Host G = record s { machine = fetch.0 } in
      let n = session_count m t.id fresh in
      elim (Option-cases (pr_state s.machine t.repo t.n)) [
        | inl e ↦ inl (ground (arith, e))
        | inr (state, e) ↦
            elim (Bool-cases (is_final state && is_zero (m.dirty_count s.machine t.wt_path))) [
              | inr a ↦ inl (ground (arith, e, a))
              | inl a ↦ elim (Bool-cases (is_pushed m t fetch)) [
                | inr b ↦ inr (inl (ground (arith, e, a, b)))
                | inl b ↦ elim (Bool-cases (n == 0)) [
                  | inl z ↦ inr (
                      inr (
                        state,
                        e,
                        ground (arith, a),
                        ground (arith, a),
                        ground (arith, b),
                        ground (arith, b),
                        ground (arith, b),
                        ground (arith, z),
                      ))
                  | inr z ↦
                      let kept =
                        closed_gate_untouched m (live_tmux_names m t.id fresh) t.id t.repo_dir
                          t.wt_path n false false fresh (ground (arith, z)) in
                      let same : delete_review m t.id (gated m t.id t.repo_dir t.wt_path fresh)
                          ≡ fresh =
                        delete_review_kept t.id fresh (gated m t.id t.repo_dir t.wt_path fresh)
                          kept.0 kept.1 in
                      inr (inl (ground (arith, e, a, b, same)))
                ]
              ]
            ]
      ]

  -- The worktree of a done task goes only if it is clean, nothing is stashed, all of it is in the
  -- branch that the repository resolves as its base and no session of the task runs. Otherwise nothing changes.
  pub cleanup_done_guarded :
      (t : DoneTask) (s : Host G)
      → (cleanup_done m t s ≡ s)
        ⊎ ((base : Text) × (m.resolve_base s.machine t.repo ≡ some base)
            × IsIdle t.id t.path base s)
  unfolding cleanup_done
  cleanup_done_guarded t s =
      let n = session_count m t.id s in
      elim (Option-cases (m.resolve_base s.machine t.repo)) [
        | inl e ↦ inl (ground (arith, e))
        | inr (base, e) ↦
            elim (Bool-cases (
              is_zero (m.dirty_count s.machine t.path)
              && is_zero (m.stash_count s.machine t.path)
              && is_zero (m.unpushed_count s.machine t.path base))) [
                | inr a ↦ inl (ground (arith, e, a))
                | inl a ↦ elim (Bool-cases (n == 0)) [
                  | inl z ↦ inr (
                    base,
                    e,
                    record {
                      clean = ground (arith, a);
                      pushed = ground (arith, a);
                      unstashed = ground (arith, a);
                      stopped = ground (arith, z);
                    },
                  )
                  | inr z ↦
                      let kept =
                        closed_gate_untouched m (live_tmux_names m t.id s) t.id t.repo t.path n
                          false false s (ground (arith, z)) in
                      inl (ground (arith, e, a, kept.0))
                ]
              ]
      ]
