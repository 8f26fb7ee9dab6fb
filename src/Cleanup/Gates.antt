-- ===== src/Cleanup/Gates.antt =====
-- The gates of `CleanupWorktreeGated`, and the rows that it may touch.
use kamacu.Common.{
  ℕ, ◌≤◌, ◌≡◌, refl, ap, subst, ◌∙◌, Bool, true, false, not, ◌&&◌, ◌||◌, Option, none, some, List,
  String, Text, ltb, ◌==◌, Bool-cases, Option-cases, inl, inr, ◌⊎◌, arith, find,
  find-update_where_other, update_where, count, count-update_where_le,
}
use kamacu.Cleanup.{
  Task, Machine, Host, Cleanup, Failure, removed, has_task_id, without_worktree, conclude_removal,
  cleanup_worktree_gated, dirty_at, kill_all,
}

abbrev pub is_removed : Cleanup → Bool
is_removed removed = true
is_removed _ = false

module _ {G : Type 0} (m : Machine G) where
  -- No session runs or they may be stopped, and nothing is lost or it is forced.
  abbrev pub is_open : Text → ℕ → Bool → Bool → G → Bool
  is_open path session_count stop_sessions force g =
      (session_count == 0 || stop_sessions)
      && (force
          || not (m.exists g path)
          || elim (m.dirty_count g path) [ none ↦ false | some n ↦ n == 0 ])

  -- A closed gate: nothing at all changes, the machine included, and nothing is said to be removed.
  pub closed_gate_untouched :
      (live : List String) (id : ℕ) (repo path : Text) (session_count : ℕ)
      (stop_sessions force : Bool) (s : Host G)
      → is_open path session_count stop_sessions force s.machine ≡ false
      → ((cleanup_worktree_gated m live id repo path session_count stop_sessions force s).0 ≡ s)
        × (is_removed
              (cleanup_worktree_gated m live id repo path session_count stop_sessions force s).1
            ≡ false)
  unfolding cleanup_worktree_gated
  closed_gate_untouched live id repo path session_count stop_sessions force s h =
      elim (Option-cases (m.dirty_count s.machine path)) [
        | inl e ↦ (ground (arith, h, e), ground (arith, h, e))
        | inr (n, e) ↦ (ground (arith, h, e), ground (arith, h, e))
      ]

  -- The table behind a cleanup: as it was, or with the columns of the one task nulled.
  abbrev IsNulled : ℕ → Host G → Host G → Type 0
  IsNulled other s t =
      (t.tasks ≡ s.tasks) ⊎ (t.tasks ≡ update_where (has_task_id other) without_worktree s.tasks)

  conclude_removal-IsNulled :
      (other : ℕ) (path : Text) (r : G × Option Failure) (s : Host G)
      → IsNulled other s (conclude_removal other path r s).0
  conclude_removal-IsNulled other path (g, none) s = elim (Bool-cases (ltb 0 other)) [
    | inl k ↦ inr (rw k refl)
    | inr k ↦ inl (rw k refl)
  ]
  conclude_removal-IsNulled other path (g, some f) s = inl refl

  cleanup-IsNulled :
      (live : List String) (other : ℕ) (repo path : Text) (session_count : ℕ)
      (stop_sessions force : Bool) (s : Host G)
      → IsNulled other s
          (cleanup_worktree_gated m live other repo path session_count stop_sessions force s).0
  unfolding cleanup_worktree_gated
  cleanup-IsNulled live other repo path session_count stop_sessions force s =
      let stopped : G = kill_all m live (m.stop_all_for_task s.machine other) in
      let end_ = conclude_removal other path (m.remove stopped repo path force) s in
      let last : IsNulled other s end_.0 =
        conclude_removal-IsNulled other path (m.remove stopped repo path force) s in
      let all_ =
        cleanup_worktree_gated m live other repo path session_count stop_sessions force s in
      elim (Bool-cases (ltb 0 session_count && not stop_sessions)) [
        | inl a ↦ inl (ground (arith, a))
        | inr a ↦ elim (Option-cases (dirty_at m force path s.machine)) [
          | inl e ↦ inl (ground (arith, a, e))
          | inr (n, e) ↦ elim (Bool-cases (ltb 0 n && not force)) [
            | inl b ↦ inl (ground (arith, a, e, b))
            | inr b ↦
                let same : end_ ≡ all_ = ground (arith, a, e, b) in
                subst (λ r. IsNulled other s r.0) same last
          ]
        ]
      ]

  -- The cleanup of one task leaves the row of any other alone.
  pub cleanup-find :
      (live : List String) (id other : ℕ) (repo path : Text) (session_count : ℕ)
      (stop_sessions force : Bool) (s : Host G)
      → (other == id) ≡ false
      → find
          (has_task_id id)
          (cleanup_worktree_gated m live other repo path session_count stop_sessions force
            s).0.tasks
        ≡ find (has_task_id id) s.tasks
  cleanup-find live id other repo path session_count stop_sessions force s h =
      elim (cleanup-IsNulled live other repo path session_count stop_sessions force s) [
        | inl e ↦ ap (find (has_task_id id)) e
        | inr e ↦
            ap (find (has_task_id id)) e
            ∙ find-update_where_other (has_task_id id) (has_task_id other) without_worktree s.tasks
                (λ x. refl) (λ x k. ground (arith, h, k))
      ]

  -- It gives no row a property that does not look at the worktree.
  pub cleanup-count :
      (p : Task → Bool) (live : List String) (other : ℕ) (repo path : Text) (session_count : ℕ)
      (stop_sessions force : Bool) (s : Host G)
      → ((x : Task) → p (without_worktree x) ≡ p x)
      → count p
          (cleanup_worktree_gated m live other repo path session_count stop_sessions force
            s).0.tasks
        ≤ count p s.tasks
  cleanup-count p live other repo path session_count stop_sessions force s h =
      elim (cleanup-IsNulled live other repo path session_count stop_sessions force s) [
        | inl e ↦ omega (arith, ap (count p) e)
        | inr e ↦ omega (
          arith,
          ap (count p) e,
          count-update_where_le p (has_task_id other) without_worktree s.tasks
              (λ x _ k. rw⁻¹ (h x) k),
        )
      ]
