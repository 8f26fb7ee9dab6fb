-- ===== src/Monitor/Schedule.antt =====
-- `observeScheduling`, `noteTyping`, `startAttempt` and `inferenceSchedule` of
-- internal/monitor/efficiency.go. What a screen shows, an active generation, a dialog and the
-- digest of its meaningful content, is a parameter; the clock is an argument.
pub mod Urgency
pub mod Deferral
use kamacu.Common.{
  ℕ, ◌-◌, Bool, true, false, not, ◌&&◌, ◌||◌, String, str_eq, Time, second, if◌then◌else◌, ltb, leb,
  ◌==◌, Text, is_nil, trim_space, contains,
}
use kamacu.Observation.{Snapshot}

pub record TaskContext : Type 0 where
  pub project_id : ℕ
  pub project_name : String
  pub previous_work : String
  pub id : ℕ
  pub title : String
  pub description : String
  pub status : String
  pub source : String
  pub scope : String
  pub engine : String

unfoldable pub same_task : TaskContext → TaskContext → Bool
same_task a b =
    a.project_id == b.project_id
    && (str_eq a.project_name b.project_name
        && (str_eq a.previous_work b.previous_work
            && (a.id == b.id
                && (str_eq a.title b.title
                    && (str_eq a.description b.description
                        && (str_eq a.status b.status
                            && (str_eq a.source b.source
                                && (str_eq a.scope b.scope && str_eq a.engine b.engine))))))))

-- `Decision.Kind` and `Decision.State`, as far as the scheduler reads them.
pub data DecisionKind : Type 0 where
  question permission error completion no_kind other_kind : DecisionKind

pub data DecisionState : Type 0 where
  unknown working idle other_state : DecisionState

pub record Decision : Type 0 where
  pub kind : DecisionKind
  pub state : DecisionState
  pub evidence : Text

-- What the recognizers see on a screen, for an engine. `dialog` is `dialogFingerprint`.
pub record Recognizers : Type 0 where
  pub active_generation : Text → String → Bool
  pub dialog : Text → String → String
  pub meaningful : Text → String → String

-- The fields of `watch` that the scheduler reads or writes.
pub record Watch : Type 0 where
  pub task_context : TaskContext
  pub revision : ℕ
  pub input : ℕ
  pub profile : String
  pub last_attempt : Time
  pub retry_after : Time
  pub reusable : Bool
  pub last_change : Time
  pub last_input_at : Time
  pub input_pending : Bool
  pub fresh_dialog : Bool
  pub typing_deferred : Bool
  pub cancel_reason : String
  pub observed_revision : ℕ
  pub observed_content : String
  pub observed_signals : String
  pub observed_input : ℕ
  pub observed_profile : String
  pub observed_task : TaskContext
  pub observation_started : Time
  pub generating : Bool
  pub urgent : Bool
  pub deferred : Bool
  pub busy : Bool
  pub decision : Decision
  pub evidence : Snapshot

abbrev pub typing_debounce : ℕ
typing_debounce = 1000000000

abbrev pub generation_fallback : ℕ
generation_fallback = 30000000000

-- Why an inference starts; `nothing` is the empty string, and `typing` and `generation` start none.
pub data Reason : Type 0 where
  nothing typing urgent_change input_settled fallback generation settled : Reason

abbrev pub is_present : String → Bool
is_present a = not (str_eq a "")

abbrev pub new_attention : String → String → Bool
new_attention old current = is_present current && not (str_eq current old)

unfoldable pub note_typing : Snapshot → Time → Watch → Watch
note_typing s now w = record w {
  last_input_at = if s.input_at == 0 || ltb now s.input_at then now else s.input_at;
  input_pending = true;
  fresh_dialog = false;
}

module _ (k : Recognizers) where
  -- The first observation of a session.
  unfoldable pub first_seen : Snapshot → String → Time → Watch → Watch
  unfolding note_typing
  first_seen s engine now w =
      let signals = k.dialog s.screen engine in
      let started = record w {
        observation_started = now;
        last_change = now;
        urgent = is_present signals;
      } in
      if ltb 0 s.input && (s.input_at == 0 || ltb (now - s.input_at) typing_debounce)
      then note_typing s now started
      else started

  -- A later one: what changed since the last.
  unfoldable pub seen_again : Snapshot → String → TaskContext → Time → Watch → Watch
  unfolding note_typing
  seen_again s profile task now w =
      let moved =
        if str_eq (k.meaningful s.screen task.engine) w.observed_content
        then w
        else record w { last_change = now } in
      let typed =
        if s.input == w.observed_input
        then moved
        else record (note_typing s now moved) { retry_after = 0 } in
      let changed =
        not (str_eq profile w.observed_profile) || not (same_task task w.observed_task) in
      let context = if changed then record typed { urgent = true; retry_after = 0 } else typed in
      let stopped = w.generating && not (k.active_generation s.screen task.engine) in
      if stopped || new_attention w.observed_signals (k.dialog s.screen task.engine)
      then record context { urgent = true }
      else context

  unfoldable pub is_unchanged : Snapshot → String → TaskContext → Watch → Bool
  is_unchanged s profile task w =
      not (w.observed_revision == 0)
      && (w.observed_revision == s.revision
          && (w.observed_input == s.input
              && (str_eq w.observed_profile profile && same_task w.observed_task task)))

  -- A dialog that appears behind the last input.
  unfoldable pub is_fresh_dialog : Snapshot → TaskContext → Watch → Bool
  is_fresh_dialog s task w =
      new_attention w.observed_signals (k.dialog s.screen task.engine)
      && (not (w.last_input_at == 0) && ltb w.last_input_at s.at)

  unfoldable pub observe_scheduling : Snapshot → String → TaskContext → Time → Watch → Watch
  observe_scheduling s profile task now w =
      let u =
        if w.observed_revision == 0
        then first_seen s task.engine now w
        else seen_again s profile task now w in
      let v = if is_fresh_dialog s task u then record u { fresh_dialog = true } else u in
      if is_unchanged s profile task w then w else record v {
        observed_revision = s.revision;
        observed_input = s.input;
        observed_profile = profile;
        observed_task = task;
        observed_content = k.meaningful s.screen task.engine;
        observed_signals = k.dialog s.screen task.engine;
        generating = k.active_generation s.screen task.engine;
      }

  abbrev pub is_attention_kind : DecisionKind → Bool
  is_attention_kind question = true
  is_attention_kind permission = true
  is_attention_kind error = true
  is_attention_kind _ = false

  abbrev pub is_completion : DecisionKind → Bool
  is_completion completion = true
  is_completion _ = false

  -- Evidence for attention that is still on the screen.
  unfoldable pub has_attention : Snapshot → Watch → Bool
  has_attention s w =
      let engine = w.observed_task.engine in
      let completed =
        is_completion w.decision.kind
        && str_eq (k.meaningful w.evidence.screen engine) (k.meaningful s.screen engine) in
      (is_attention_kind w.decision.kind || completed)
      && (w.input == s.input
          && (str_eq w.profile w.observed_profile
              && (same_task w.task_context w.observed_task
                  && (not (is_nil (trim_space w.decision.evidence))
                      && contains s.screen w.decision.evidence))))

  abbrev pub is_unknown : DecisionState → Bool
  is_unknown unknown = true
  is_unknown _ = false

  unfoldable pub is_blocked : Snapshot → Time → Watch → Bool
  is_blocked s now w = w.busy || (s.unsupported_size || (is_nil s.screen || ltb now w.retry_after))

  unfoldable pub is_typing : Bool → Time → Watch → Bool
  is_typing stale now w =
      (stale || (w.input_pending || w.urgent))
      && (not (w.last_input_at == 0)
          && (ltb (now - w.last_input_at) typing_debounce
              && not (w.fresh_dialog && is_present w.observed_signals)))

  unfoldable pub inference_schedule : Bool → Snapshot → Time → Watch → Reason
  inference_schedule stale s now w =
      let elapsed = now - w.last_attempt in
      let baseline = if w.last_attempt == 0 then w.observation_started else w.last_attempt in
      let quiet = ltb 2000000000 (now - w.last_change) || ltb 10000000000 elapsed in
      if is_blocked s now w
      then nothing
      else if is_typing stale now w
      then typing
      else if w.urgent && w.fresh_dialog
      then urgent_change
      else if w.input_pending
      then input_settled
      else if w.urgent
      then urgent_change
      else if w.generating && not (stale && has_attention s w)
      then (if leb generation_fallback (now - baseline) then fallback else generation)
      else if not stale
      then (if is_unknown w.decision.state && leb generation_fallback elapsed
          then fallback
          else nothing)
      else if ltb 5000000000 elapsed && quiet
      then settled
      else nothing

-- The start of a worker.
unfoldable pub start_attempt : Time → Watch → Watch
start_attempt now w = record w {
  reusable = false;
  urgent = false;
  deferred = false;
  input_pending = false;
  fresh_dialog = false;
  typing_deferred = false;
  cancel_reason = "";
  last_attempt = now;
}
