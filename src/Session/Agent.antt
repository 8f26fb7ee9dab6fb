-- ===== src/Session/Agent.antt =====
-- The agent status of internal/session/session.go, of internal/session/observation.go and of
-- internal/session/terminal_input.go. Time is an argument; the regular expressions that find
-- terminal reports, and the PTY's outcome, are parameters.
pub mod Sticky
use Prim.Native.Nat.{bit_and}
use mathlib.Core.Option
use kamacu.Common.{
  ℕ, zero, suc, ◌+◌, ◌-◌, Bool, true, false, not, ◌&&◌, ◌||◌, Option, none, some, List, [], ◌∷◌,
  str_eq, Time, second, if◌then◌else◌, ltb, leb, ◌==◌, length, drop,
}
use kamacu.Observation.{Renderer, Snapshot, note_input}
use kamacu.Session.{
  Session, MonitorStatus, MonitorState, monitor_waiting, monitor_idle, monitor_error, InputSource,
  AgentStatus, working, idle, waiting, error, gone, is_exited, is_agent, agent_settle_window,
  agent_quiet_threshold,
}
use kamacu.Session.Bell.{scan}
use kamacu.Session.Codex.{codex_state_of, ignore_current_screen, codex_status}
use kamacu.Session.Codex.Screen.{Patterns}
use kamacu.Session.Codex.Output.{note_codex_output}

-- The reports of xterm at the head of some input: the length of a run of terminal reports, and
-- a mouse report's length, its button if that is a number, and whether it is a release.
pub record Reports : Type 0 where
  pub terminal_reports : List ℕ → ℕ
  pub mouse_report : List ℕ → Option (ℕ × Option ℕ × Bool)

-- Motion, scrolling and releases answer no prompt; `96` are the bits of motion and wheel.
abbrev pub is_passive : Option ℕ → Bool → Bool
is_passive none release = false
is_passive (some button) release = not (bit_and button 96 == 0) || release

-- The loop takes a byte of a report each round at least, so the length is fuel enough.
pub user_input_loop : Reports → ℕ → List ℕ → Bool
user_input_loop m fuel [] = false
user_input_loop m zero (b ∷ p) = true
user_input_loop m (suc fuel) (b ∷ p) =
    let n = m.terminal_reports (b ∷ p) in
    elim (ltb 0 n) [
      | true ↦ user_input_loop m fuel (drop n (b ∷ p))
      | false ↦ elim (m.mouse_report (b ∷ p)) [
        | none ↦ true
        | some (k, button, release) ↦ elim (is_passive button release) [
          | true ↦ user_input_loop m fuel (drop k (b ∷ p))
          | false ↦ true
        ]
      ]
    ]

unfoldable pub is_user_input : Reports → List ℕ → Bool
unfolding user_input_loop
is_user_input m p = user_input_loop m (length p) p

-- What a current verdict of the monitor says.
abbrev pub verdict : MonitorState → Option AgentStatus
verdict monitor_waiting = some waiting
verdict monitor_idle = some idle
verdict monitor_error = some error
verdict _ = none

abbrev pub later_of : Time → Time → Time
later_of a b = if ltb a b then b else a

unfoldable pub terminal_agent_status : Snapshot → MonitorStatus → Time → AgentStatus
terminal_agent_status obs monitor now =
    let activity = later_of obs.output_at obs.input_at in
    let quiet =
      if not (activity == 0) && ltb (now - activity) (15000000000) then working else idle in
    if not (monitor.observed_at == 0) && leb activity monitor.observed_at
    then elim (verdict monitor.state) [ some v ↦ v | none ↦ quiet ]
    else quiet

unfoldable pub agent_status : {V : Type 0} → Time → Session V → AgentStatus
agent_status now s =
    let recent = not (s.last_activity == 0) && ltb (now - s.last_activity) agent_quiet_threshold in
    let reduced =
      if str_eq s.engine "codex"
      then codex_status now s
      else if s.waiting
      then waiting
      else if recent
      then working
      else idle in
    if is_exited s.status
    then gone
    else elim s.observer [ some t ↦ terminal_agent_status t.snap s.monitor now | none ↦ reduced ]

module _ {V : Type 0} (r : Renderer V) where
  -- Output of an agent that no observer watches.
  unfoldable pub note_agent_output : Patterns → Time → List ℕ → Session V → Session V
  note_agent_output m now chunk s =
      let codex = note_codex_output r m now chunk s in
      let quiet_codex =
        if not codex.hooks_alive && not codex.waiting
        then record codex { last_activity = now }
        else codex in
      let (bare, osc) = scan false s.in_osc chunk in
      let rings = ltb 0 bare && not s.hooks_alive in
      let waits = s.waiting || rings in
      let settled = ltb agent_settle_window (now - s.stop_hook_at) in
      let active = if not waits && settled then now else s.last_activity in
      let heard = record s { in_osc = osc; waiting = waits; last_activity = active } in
      elim s.observer [
        | some t ↦ s
        | none ↦
            if not (is_agent s.kind)
            then s
            else if str_eq s.engine "codex"
            then quiet_codex
            else heard
      ]

  unfoldable pub set_idle : Time → Session V → Session V
  set_idle now s =
      let c = codex_state_of s.codex_state in
      let d = ignore_current_screen r (record c { active = false; lifecycle = true }) in
      let state = if str_eq s.engine "codex" then some d else s.codex_state in
      record s { waiting = false; codex_state = state; stop_hook_at = now; last_activity = 0 }

  -- The answer tells whether the bytes went on to the PTY; an exited session refuses them.
  unfoldable pub write_input : Reports → Time → List ℕ → InputSource → Session V → Session V × Bool
  write_input m now p source s =
      let c = codex_state_of s.codex_state in
      let d = ignore_current_screen r (record c { active = true; ended_at = 0 }) in
      let typed = record s {
        last_input_source = source;
        observer = Option.map (note_input now) s.observer;
        waiting = false;
        last_activity = now;
        codex_state = if str_eq s.engine "codex" then some d else s.codex_state;
      } in
      if is_exited s.status
      then (s, false)
      else if is_agent s.kind && is_user_input m p
      then (typed, true)
      else (s, true)

unfoldable pub set_waiting : {V : Type 0} → Session V → Session V
set_waiting s = record s { waiting = true }

unfoldable pub mark_hooks_alive : {V : Type 0} → Session V → Session V
mark_hooks_alive s = record s { hooks_alive = true }

unfoldable pub set_monitor_status : {V : Type 0} → MonitorStatus → Session V → Session V
set_monitor_status v s = record s { monitor = v }

unfoldable pub clear_waiting_on_attach : {V : Type 0} → Session V → Session V
clear_waiting_on_attach s =
    let clears = is_agent s.kind && (not (str_eq s.engine "codex") && s.waiting) in
    elim s.observer [
      | some t ↦ s
      | none ↦ if clears then record s { waiting = false; last_activity = 0 } else s
    ]
