-- ===== src/Session/Codex.antt =====
-- internal/session/codex_status.go: the lifecycle of a Codex turn, reduced from hooks and from the
-- rendered screen. The terminal emulator is a `Renderer`; `canonical` stands for the JSON decoder
-- with SHA-256: of a tool's input, without its description where the flag is set, it gives the
-- digest, and `none` where the input is no JSON.
pub mod Screen
pub mod Output
pub mod Delayed
pub mod Turns
use Prim.Native.String.{◌++◌ as append_text}
use kamacu.Common.{
  ℕ, suc, ◌-◌, ◌==◌, Bool, true, false, not, ◌&&◌, ◌||◌, Option, none, some, List, [], ◌∷◌, ◌++◌,
  String, str_eq, Time, if◌then◌else◌, any, keep, is_nil, length, drop, ltb,
}
use kamacu.Observation.{Renderer}
use kamacu.Session.{
  CodexStatus, Session, ScreenStatus, unclear, seen_working, seen_waiting, seen_idle, AgentStatus,
  working, idle, waiting, is_exited, agent_quiet_threshold,
}

-- The events that the reducer knows; `other` is any other text.
pub data HookEvent : Type 0 where
  session_start user_prompt_submit pre_tool_use permission_request post_tool_use : HookEvent
  stop interrupt session_end : HookEvent
  other : String → HookEvent

pub record CodexHook : Type 0 where
  pub event : HookEvent
  pub session_id : String
  pub source : String
  pub turn_id : String
  pub tool_use_id : String
  pub tool_name : String
  pub tool_input : String

abbrev pub empty_codex : {V : Type 0} → CodexStatus V
empty_codex = record {
  terminal = none;
  utf8_tail = [];
  active = false;
  lifecycle = false;
  turn = "";
  session_id = "";
  completed = [];
  pending = [];
  screen_status = unclear;
  ignore_screen = [];
  ended_at = 0;
}

abbrev pub is_ready_event : HookEvent → Bool
is_ready_event (other e) = false
is_ready_event _ = true

abbrev pub is_session_start : HookEvent → Bool
is_session_start session_start = true
is_session_start _ = false

abbrev pub is_prompt : HookEvent → Bool
is_prompt user_prompt_submit = true
is_prompt _ = false

-- `codexStateLocked`: made on first use.
abbrev pub codex_state_of : {V : Type 0} → Option (CodexStatus V) → CodexStatus V
codex_state_of none = empty_codex
codex_state_of (some c) = c

abbrev pub is_set : String → Bool
is_set s = not (str_eq s "")

abbrev pub mem_text : String → List String → Bool
mem_text k ks = any (λ j. str_eq j k) ks

abbrev pub add_key : String → List String → List String
add_key k ks = if mem_text k ks then ks else k ∷ ks

abbrev pub delete_key : String → List String → List String
delete_key k ks = keep (λ j. not (str_eq j k)) ks

-- At most 32 turns are remembered: the oldest goes.
abbrev pub complete_turn : String → List String → List String
complete_turn t ts =
    if is_set t
    then (if ltb 32 (length (ts ++ t ∷ [])) then drop 1 (ts ++ t ∷ []) else ts ++ t ∷ [])
    else ts

module _ (canonical : Bool → String → Option String) where
  unfoldable pub codex_tool_key : CodexHook → String
  codex_tool_key h =
      let drops = str_eq h.tool_name "Bash" || str_eq h.tool_name "apply_patch" in
      let named = if is_set h.tool_use_id then h.tool_use_id else h.tool_name in
      if is_set h.tool_input
      then elim (canonical drops h.tool_input) [
        | some digest ↦ append_text h.tool_name (append_text ":" digest)
        | none ↦ named
      ]
      else named

module _ {V : Type 0} (r : Renderer V) where
  unfoldable pub ignore_current_screen : CodexStatus V → CodexStatus V
  ignore_current_screen c = record c {
    screen_status = unclear;
    ignore_screen = elim c.terminal [ none ↦ c.ignore_screen | some v ↦ r.text v ];
  }

  -- Whose hook it is: `none` for a child thread's, which is ignored; otherwise the state behind
  -- it, and whether the root session was switched.
  unfoldable pub claim_session : CodexHook → CodexStatus V → Option (CodexStatus V × Bool)
  unfolding ignore_current_screen
  claim_session h c =
      let switches =
        is_session_start h.event && (str_eq h.source "resume" || str_eq h.source "clear") in
      let fresh =
        ignore_current_screen (record c {
          turn = "";
          completed = [];
          pending = [];
          active = false;
          lifecycle = true;
        }) in
      if not (is_set h.session_id)
      then some (c, false)
      else if is_set c.session_id && not (str_eq c.session_id h.session_id)
      then (if switches then some (record fresh { session_id = h.session_id }, true) else none)
      else some (record c { session_id = h.session_id }, false)

  -- Delayed hooks of a finished turn, and hooks of another turn than the running one.
  abbrev pub is_stale : CodexHook → CodexStatus V → Bool
  is_stale h c =
      is_set h.turn_id && mem_text h.turn_id c.completed
      || is_set c.turn
        && (is_set h.turn_id && (not (str_eq c.turn h.turn_id) && not (is_prompt h.event)))

  -- The second switch over the event, on the state and `waiting`; `key` is the tool's key.
  unfoldable pub reduce_event :
      Time → String → HookEvent → CodexStatus V × Bool → CodexStatus V × Bool
  unfolding ignore_current_screen
  reduce_event now key user_prompt_submit (c, w) = (
    ignore_current_screen
        (record c { lifecycle = true; active = true; pending = []; ended_at = 0 }),
    false,
  )
  reduce_event now key pre_tool_use (c, w) =
      let d = record c { lifecycle = true; active = true; ended_at = 0 } in
      if is_nil d.pending then (ignore_current_screen d, false) else (d, w)
  reduce_event now key post_tool_use (c, w) =
      let d = record c {
        lifecycle = true;
        active = true;
        ended_at = 0;
        pending = delete_key key c.pending;
      } in
      if is_nil d.pending then (ignore_current_screen d, false) else (d, w)
  reduce_event now key permission_request (c, w) =
      (record c { lifecycle = true; active = true; pending = add_key key c.pending }, w)
  reduce_event now key session_start (c, w) = (c, w)
  reduce_event now key (other e) (c, w) = (c, w)
  reduce_event now key _ (c, w) =
      let d =
        ignore_current_screen
          (record c { lifecycle = true; active = false; pending = []; ended_at = now }) in
      (record d { completed = complete_turn c.turn c.completed; turn = "" }, false)

  -- A hook behind the claim: `SessionStart` only shows that hooks work.
  unfoldable pub reduce_hook :
      Time → String → CodexHook → CodexStatus V × Bool → CodexStatus V × Bool
  unfolding reduce_event
  reduce_hook now key h (c, w) =
      let d = record c { turn = if is_set h.turn_id then h.turn_id else c.turn } in
      if is_session_start h.event || is_stale h c
      then (c, w)
      else reduce_event now key h.event (d, w)

  abbrev pub store : Session V → CodexStatus V × Bool → Session V
  store s (c, w) = record s { codex_state = some c; waiting = w }

  unfoldable pub apply_codex_hook :
      (Bool → String → Option String) → Time → CodexHook → Session V → Session V
  unfolding claim_session reduce_hook codex_tool_key
  apply_codex_hook canonical now h s =
      let c = codex_state_of s.codex_state in
      if not (str_eq s.engine "codex") || is_exited s.status || not (is_ready_event h.event)
      then s
      else elim (claim_session h c) [
        | none ↦ record s { codex_state = some c }
        | some (d, switched) ↦
            store (record s { hooks_alive = true })
              (reduce_hook now (codex_tool_key canonical h) h
                (d, if switched then false else s.waiting))
      ]

abbrev pub is_seen_waiting : ScreenStatus → Bool
is_seen_waiting seen_waiting = true
is_seen_waiting _ = false

abbrev pub is_seen_idle : ScreenStatus → Bool
is_seen_idle seen_idle = true
is_seen_idle _ = false

-- `codexStatusLocked`: before the first lifecycle event the recent output decides.
unfoldable pub codex_status : {V : Type 0} → Time → Session V → AgentStatus
codex_status now s =
    let c = codex_state_of s.codex_state in
    if is_seen_waiting c.screen_status || s.waiting
    then waiting
    else if c.active
    then working
    else if c.lifecycle || is_seen_idle c.screen_status
    then idle
    else if not (s.last_activity == 0) && ltb (now - s.last_activity) agent_quiet_threshold
    then working
    else idle
