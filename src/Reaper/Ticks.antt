-- ===== src/Reaper/Ticks.antt =====
-- Which rows a tick of internal/reaper/reaper.go leaves alone.
use kamacu.Common.{
  ℕ, ◌≤◌, ◌≡◌, refl, ap, ◌∙◌, Bool, false, ◌&&◌, Option, none, some, List, [], ◌∷◌, ◌++◌, String,
  Text, str_eq, ◌==◌, Bool-cases, Option-cases, inl, inr, arith, find, count, All,
  find-delete_where,
}
use kamacu.Cleanup.{Task, Machine, Host, Cleanup, removed, refused, blocked, failed, has_task_id}
use kamacu.Cleanup.Gates.{cleanup-find, cleanup-count}
use kamacu.Reaper.{
  PrTask, DoneTask, pr_task, pr_tasks, done_task, done_tasks, reap_once, reconcile_all,
  reconcile_prs_once, cleanup_all, cleanup_done_once, session_count, live_tmux_names, gated,
  delete_review, reconcile_pr, cleanup_done, tick,
}

-- The rows of a task that a pass selects.
abbrev pub is_review_of : ℕ → Task → Bool
is_review_of id t = has_task_id id t && str_eq t.source "github_pr"

abbrev pub is_done_of : ℕ → Task → Bool
is_done_of id t = has_task_id id t && str_eq t.status "done"

All-append : {A : Type 0} (P : A → Type 0) (xs ys : List A) → All P xs → All P ys → All P (xs ++ ys)
All-append P [] ys a b = b
All-append P (x ∷ xs) ys a b = (a.0, All-append P xs ys a.1 b)

pr_task_other :
    (id : ℕ) (t : Task) → is_review_of id t ≡ false → All (λ p. (p.id == id) ≡ false) (pr_task t)
pr_task_other id t h = elim (Bool-cases (str_eq t.source "github_pr")) [
  | inr e ↦ rw e tt
  | inl e ↦ elim (Option-cases t.worktree_path) [
    | inl w ↦ rw (e, w) tt
    | inr (path, w) ↦ elim (Option-cases t.github_repo) [
      | inl r ↦ rw (e, w, r) tt
      | inr (repo, r) ↦ rw (e, w, r) (ground (arith, h, e), tt)
    ]
  ]
]

pr_tasks_other :
    (id : ℕ) (ts : List Task)
    → count (is_review_of id) ts ≡ 0
    → All (λ p. (p.id == id) ≡ false) (pr_tasks ts)
pr_tasks_other id [] h = tt
pr_tasks_other id (t ∷ ts) h =
    All-append _ (pr_task t) (pr_tasks ts) (pr_task_other id t (ground (arith, h)))
      (pr_tasks_other id ts (ground (arith, h)))

done_task_other :
    (id : ℕ) (t : Task) → is_done_of id t ≡ false → All (λ p. (p.id == id) ≡ false) (done_task t)
done_task_other id t h = elim (Bool-cases (str_eq t.status "done")) [
  | inr e ↦ rw e tt
  | inl e ↦ elim (Option-cases t.worktree_path) [
    | inl w ↦ rw (e, w) tt
    | inr (path, w) ↦ rw (e, w) (ground (arith, h, e), tt)
  ]
]

done_tasks_other :
    (id : ℕ) (ts : List Task)
    → count (is_done_of id) ts ≡ 0
    → All (λ p. (p.id == id) ≡ false) (done_tasks ts)
done_tasks_other id [] h = tt
done_tasks_other id (t ∷ ts) h =
    All-append _ (done_task t) (done_tasks ts) (done_task_other id t (ground (arith, h)))
      (done_tasks_other id ts (ground (arith, h)))

module _ {G : Type 0} (m : Machine G) where
  gated-find :
      (id other : ℕ) (repo path : Text) (s : Host G)
      → (other == id) ≡ false
      → find (has_task_id id) (gated m other repo path s).0.tasks ≡ find (has_task_id id) s.tasks
  gated-find id other repo path s h =
      cleanup-find m (live_tmux_names m other s) id other repo path (session_count m other s) false
        false s h

  delete_review-find :
      (id other : ℕ) (r : Host G × Cleanup)
      → (other == id) ≡ false
      → find (has_task_id id) (delete_review m other r).tasks ≡ find (has_task_id id) r.0.tasks
  delete_review-find id other (s, removed) h =
      find-delete_where (has_task_id id) (has_task_id other) s.tasks (λ x k. ground (arith, h, k))
  delete_review-find id other (s, failed) h = refl
  delete_review-find id other (s, refused why) h = refl
  delete_review-find id other (s, blocked path) h = refl

  reconcile_pr-find :
      (pr_state : G → Text → ℕ → Option String) (id : ℕ) (t : PrTask) (s : Host G)
      → (t.id == id) ≡ false
      → find (has_task_id id) (reconcile_pr m pr_state t s).tasks ≡ find (has_task_id id) s.tasks
  unfolding reconcile_pr
  reconcile_pr-find pr_state id t s h =
      let fetch = m.fetch_pull_head s.machine t.wt_path t.n in
      let fresh : Host G = record s { machine = fetch.0 } in
      let r = gated m t.id t.repo_dir t.wt_path fresh in
      let last : find (has_task_id id) (delete_review m t.id r).tasks
          ≡ find (has_task_id id) s.tasks =
        delete_review-find id t.id r h ∙ gated-find id t.id t.repo_dir t.wt_path fresh h in
      elim (Option-cases (pr_state s.machine t.repo t.n)) [
        | inl e ↦ ground (arith, e)
        | inr (state, e) ↦ ground (arith, e, last)
      ]

  reconcile_all-find :
      (pr_state : G → Text → ℕ → Option String) (id : ℕ) (ts : List PrTask) (s : Host G)
      → All (λ p. (p.id == id) ≡ false) ts
      → find (has_task_id id) (reconcile_all m pr_state ts s).tasks ≡ find (has_task_id id) s.tasks
  reconcile_all-find pr_state id [] s h = refl
  reconcile_all-find pr_state id (t ∷ ts) s h =
      reconcile_all-find pr_state id ts (reconcile_pr m pr_state t s) h.1
      ∙ reconcile_pr-find pr_state id t s h.0

  cleanup_done-find :
      (id : ℕ) (t : DoneTask) (s : Host G)
      → (t.id == id) ≡ false
      → find (has_task_id id) (cleanup_done m t s).tasks ≡ find (has_task_id id) s.tasks
  unfolding cleanup_done
  cleanup_done-find id t s h =
      let last = gated-find id t.id t.repo t.path s h in
      elim (Option-cases (m.resolve_base s.machine t.repo)) [
        | inl e ↦ ground (arith, e)
        | inr (base, e) ↦ ground (arith, e, last)
      ]

  cleanup_done-count :
      (p : Task → Bool) (t : DoneTask) (s : Host G)
      → ((x : Task)
          → p (record x { branch = none; worktree_path = none; worktree_error = none }) ≡ p x)
      → count p (cleanup_done m t s).tasks ≤ count p s.tasks
  unfolding cleanup_done
  cleanup_done-count p t s h =
      let last =
        cleanup-count m p (live_tmux_names m t.id s) t.id t.repo t.path (session_count m t.id s)
          false false s h in
      elim (Option-cases (m.resolve_base s.machine t.repo)) [
        | inl e ↦ ground (arith, e)
        | inr (base, e) ↦ ground (arith, e, last)
      ]

  cleanup_all-find :
      (id : ℕ) (ts : List DoneTask) (s : Host G)
      → All (λ p. (p.id == id) ≡ false) ts
      → (find (has_task_id id) (cleanup_all m ts s).tasks ≡ find (has_task_id id) s.tasks)
        × (count (is_review_of id) (cleanup_all m ts s).tasks ≤ count (is_review_of id) s.tasks)
  cleanup_all-find id [] s h = (refl, omega arith)
  cleanup_all-find id (t ∷ ts) s h =
      let rest = cleanup_all-find id ts (cleanup_done m t s) h.1 in
      let first : count (is_review_of id) (cleanup_done m t s).tasks
          ≤ count (is_review_of id) s.tasks =
        cleanup_done-count (is_review_of id) t s (λ x. refl) in
      (rest.0 ∙ cleanup_done-find id t s h.0, omega (arith, rest.1, first))

  reap_once-tasks :
      (parse_duration : Text → Option ℕ) (raw : Option Text) (now : ℕ) (s : Host G)
      → (reap_once m parse_duration raw now s).tasks ≡ s.tasks
  unfolding reap_once
  reap_once-tasks parse_duration none now s = refl
  reap_once-tasks parse_duration (some raw) now s = ground arith

  -- A whole tick leaves alone the row of every task that is neither a review nor done.
  pub tick_spares :
      (parse_duration : Text → Option ℕ) (raw : Option Text)
      (pr_state : G → Text → ℕ → Option String) (now id : ℕ) (s : Host G)
      → count (is_review_of id) s.tasks ≡ 0
      → count (is_done_of id) s.tasks ≡ 0
      → find (has_task_id id) (tick m parse_duration raw pr_state now s).tasks
        ≡ find (has_task_id id) s.tasks
  unfolding tick cleanup_done_once reconcile_prs_once
  tick_spares parse_duration raw pr_state now id s review done_ =
      let a = reap_once m parse_duration raw now s in
      let same = reap_once-tasks parse_duration raw now s in
      let cleaned =
        cleanup_all-find id (done_tasks a.tasks) a
          (done_tasks_other id a.tasks (ap (count (is_done_of id)) same ∙ done_)) in
      let b = cleanup_done_once m a in
      let no_review : count (is_review_of id) b.tasks ≡ 0 =
        omega (arith, cleaned.1, ap (count (is_review_of id)) same, review) in
      reconcile_all-find pr_state id (pr_tasks b.tasks) b (pr_tasks_other id b.tasks no_review)
      ∙ cleaned.0
      ∙ ap (find (has_task_id id)) same
