-- ===== src/Monitor/Schedule/Urgency.antt =====
-- Changes that call for attention are kept until a worker starts
-- (internal/monitor/efficiency.go).
use kamacu.Common.{
  ◌≡◌, refl, Bool, true, false, not, ◌&&◌, ◌||◌, String, str_eq, Time, if◌then◌else◌, arith, List,
  [], ◌∷◌, ◌==◌, inl, inr, All, ◌∙◌, Bool-cases,
}
use kamacu.Observation.{Snapshot}
use kamacu.Monitor.Schedule.{
  Watch, TaskContext, Recognizers, new_attention, observe_scheduling, seen_again, note_typing,
  is_unchanged, is_fresh_dialog, same_task,
}

-- One look at the terminal by the scheduler.
pub record Look : Type 0 where
  pub snap : Snapshot
  pub profile : String
  pub task : TaskContext
  pub now : Time

module _ (k : Recognizers) where
  unfoldable pub look_all : Watch → List Look → Watch
  look_all w [] = w
  look_all w (l ∷ ls) = look_all (observe_scheduling k l.snap l.profile l.task l.now w) ls

  -- What calls for attention at once.
  abbrev pub is_change : Snapshot → String → TaskContext → Watch → Bool
  is_change s profile task w =
      new_attention w.observed_signals (k.dialog s.screen task.engine)
      || ((w.generating && not (k.active_generation s.screen task.engine))
          || (not (str_eq profile w.observed_profile) || not (same_task task w.observed_task)))

  seen_again_keeps :
      (s : Snapshot) (profile : String) (task : TaskContext) (now : Time) (w : Watch)
      → w.urgent ≡ true
      → (seen_again k s profile task now w).urgent ≡ true
  unfolding seen_again
  seen_again_keeps s profile task now w u = ground arith

  seen_again_pending :
      (s : Snapshot) (profile : String) (task : TaskContext) (now : Time) (w : Watch)
      → w.input_pending ≡ true
      → (seen_again k s profile task now w).input_pending ≡ true
  unfolding seen_again
  seen_again_pending s profile task now w u = ground arith

  seen_again_urgent :
      (s : Snapshot) (profile : String) (task : TaskContext) (now : Time) (w : Watch)
      → is_change s profile task w ≡ true
      → (seen_again k s profile task now w).urgent ≡ true
  unfolding seen_again
  seen_again_urgent s profile task now w c = ground arith

  seen_again_typed :
      (s : Snapshot) (profile : String) (task : TaskContext) (now : Time) (w : Watch)
      → (s.input == w.observed_input) ≡ false
      → (seen_again k s profile task now w).input_pending ≡ true
  unfolding seen_again note_typing
  seen_again_typed s profile task now w c = ground arith

  if_fresh :
      (b : Bool) (u : Watch)
      → let v = if b then record u { fresh_dialog = true } else u in
        (v.urgent ≡ u.urgent) × (v.input_pending ≡ u.input_pending)
  if_fresh true u = (refl, refl)
  if_fresh false u = (refl, refl)

  observe_again :
      (s : Snapshot) (profile : String) (task : TaskContext) (now : Time) (w : Watch)
      → (w.observed_revision == 0) ≡ false
      → is_unchanged k s profile task w ≡ false
      → let v = observe_scheduling k s profile task now w in
        let u = seen_again k s profile task now w in
        (v.urgent ≡ u.urgent) × (v.input_pending ≡ u.input_pending)
  unfolding observe_scheduling
  observe_again s profile task now w seen changed =
      let u = seen_again k s profile task now w in
      rw (changed, seen) (if_fresh (is_fresh_dialog k s task u) u)

  observe_unchanged :
      (s : Snapshot) (profile : String) (task : TaskContext) (now : Time) (w : Watch)
      → is_unchanged k s profile task w ≡ true
      → observe_scheduling k s profile task now w ≡ w
  unfolding observe_scheduling
  observe_unchanged s profile task now w e = rw e

  -- For a session that was observed before, a dialog that was not on the last screen, a generation
  -- that stops, another profile and another task each make it urgent, unless revision, input,
  -- profile and task are all those of the last observation.
  pub change_noticed :
      (s : Snapshot) (profile : String) (task : TaskContext) (now : Time) (w : Watch)
      → (w.observed_revision == 0) ≡ false
      → is_unchanged k s profile task w ≡ false
      → is_change s profile task w ≡ true
      → (observe_scheduling k s profile task now w).urgent ≡ true
  change_noticed s profile task now w seen changed c =
      (observe_again s profile task now w seen changed).0 ∙ seen_again_urgent s profile task now w c

  -- New input of the user makes the input of a session that was observed before pending.
  pub input_noticed :
      (s : Snapshot) (profile : String) (task : TaskContext) (now : Time) (w : Watch)
      → (w.observed_revision == 0) ≡ false
      → (s.input == w.observed_input) ≡ false
      → (observe_scheduling k s profile task now w).input_pending ≡ true
  unfolding is_unchanged
  input_noticed s profile task now w seen c =
      let changed : is_unchanged k s profile task w ≡ false = ground arith in
      (observe_again s profile task now w seen changed).1 ∙ seen_again_typed s profile task now w c

  observe_keeps :
      (s : Snapshot) (profile : String) (task : TaskContext) (now : Time) (w : Watch)
      → (w.observed_revision == 0) ≡ false
      → let v = observe_scheduling k s profile task now w in
        (w.urgent ≡ true → v.urgent ≡ true) × (w.input_pending ≡ true → v.input_pending ≡ true)
  observe_keeps s profile task now w seen = elim (Bool-cases (is_unchanged k s profile task w)) [
    | inl e ↦ rw (observe_unchanged s profile task now w e) ((λ u. u), (λ u. u))
    | inr e ↦
        let same = observe_again s profile task now w seen e in
        (
          (λ u. same.0 ∙ seen_again_keeps s profile task now w u),
          (λ u. same.1 ∙ seen_again_pending s profile task now w u),
        )
  ]

  observe_revision :
      (s : Snapshot) (profile : String) (task : TaskContext) (now : Time) (w : Watch)
      → (w.observed_revision == 0) ≡ false
      → (s.revision == 0) ≡ false
      → ((observe_scheduling k s profile task now w).observed_revision == 0) ≡ false
  unfolding observe_scheduling
  observe_revision s profile task now w seen rev =
      elim (Bool-cases (is_unchanged k s profile task w)) [ inl e ↦ rw e seen | inr e ↦ rw e rev ]

  looks_keep :
      (w : Watch) (ls : List Look)
      → (w.observed_revision == 0) ≡ false
      → All (λ l. (l.snap.revision == 0) ≡ false) ls
      → (w.urgent ≡ true → (look_all w ls).urgent ≡ true)
        × (w.input_pending ≡ true → (look_all w ls).input_pending ≡ true)
  unfolding look_all
  looks_keep w [] seen later = ((λ u. u), (λ u. u))
  looks_keep w (l ∷ ls) seen later =
      let now = observe_keeps l.snap l.profile l.task l.now w seen in
      let rest =
        looks_keep (observe_scheduling k l.snap l.profile l.task l.now w) ls
          (observe_revision l.snap l.profile l.task l.now w seen later.0) later.1 in
      ((λ u. rest.0 (now.0 u)), (λ u. rest.1 (now.1 u)))

  -- What a look finds that the last one did not: another dialog, the end of a generation, another
  -- profile or another task.
  abbrev pub calls_attention : Look → Watch → Bool
  calls_attention l w =
      let dialog = k.dialog l.snap.screen l.task.engine in
      not (str_eq dialog "") && not (str_eq dialog w.observed_signals)
      || w.generating && not (k.active_generation l.snap.screen l.task.engine)
      || not (str_eq l.profile w.observed_profile)
      || not (same_task l.task w.observed_task)

  -- An urgent change is not missed and, until a worker starts, not lost: where a session that was
  -- observed before shows, at a new revision, another dialog than before, no generation any more,
  -- or is looked at for another profile or task, it is urgent from then on, whatever snapshots with
  -- a revision are seen afterwards.
  pub change_kept :
      (w : Watch) (l : Look) (ls : List Look)
      → (w.observed_revision == 0) ≡ false
      → (w.observed_revision == l.snap.revision) ≡ false
      → All (λ l. (l.snap.revision == 0) ≡ false) (l ∷ ls)
      → calls_attention l w ≡ true
      → (look_all w (l ∷ ls)).urgent ≡ true
  unfolding look_all is_unchanged
  change_kept w l ls seen fresh later c =
      let changed : is_unchanged k l.snap l.profile l.task w ≡ false = ground arith in
      let called : is_change l.snap l.profile l.task w ≡ true = ground (arith, c) in
      let noticed = change_noticed l.snap l.profile l.task l.now w seen changed called in
      (looks_keep (observe_scheduling k l.snap l.profile l.task l.now w) ls
          (observe_revision l.snap l.profile l.task l.now w seen later.0) later.1).0
        noticed

  -- Once a session was observed, a pending input stays pending, whatever snapshots with a revision
  -- are seen afterwards.
  pub looks_keep_input :
      (w : Watch) (ls : List Look)
      → (w.observed_revision == 0) ≡ false
      → All (λ l. (l.snap.revision == 0) ≡ false) ls
      → w.input_pending ≡ true
      → (look_all w ls).input_pending ≡ true
  looks_keep_input w ls seen later u = (looks_keep w ls seen later).1 u
