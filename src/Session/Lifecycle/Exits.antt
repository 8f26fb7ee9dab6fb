-- ===== src/Session/Lifecycle/Exits.antt =====
-- The exit of a session is final, whatever is called afterwards (internal/session/session.go).
use kamacu.Common.{ℕ, ◌≡◌, refl, Bool, true, false, Option, List, [], ◌∷◌, String, Time, arith}
use kamacu.Observation.{Renderer}
use kamacu.Session.{Session, Winsize, InputSource, MonitorStatus, gone, is_exited}
use kamacu.Session.Codex.{CodexHook, apply_codex_hook}
use kamacu.Session.Codex.Screen.{Patterns}
use kamacu.Session.Codex.Output.{note_codex_output}
use kamacu.Session.Agent.{
  Reports, agent_status, note_agent_output, set_idle, set_waiting, mark_hooks_alive,
  set_monitor_status, clear_waiting_on_attach, write_input,
}
use kamacu.Session.Lifecycle.{
  deliver, fan_out, attach, detach, receive, mark_exited, request_stop, set_label,
  set_codex_session_id, set_detached, resize,
}

-- The calls that reach a session, from the pump, the hooks, the connections and the API.
pub data Call : Type 0 where
  heard : Time → List ℕ → Call
  fanned : List ℕ → Call
  hooked : Time → CodexHook → Call
  stopped : Time → Call
  asked : Call
  confirmed : Call
  judged : MonitorStatus → Call
  acknowledged : Call
  typed : Time → List ℕ → InputSource → Call
  attached : String → Call
  detached : String → Call
  received : String → Call
  resized : Time → ℕ → ℕ → Bool → Call
  labelled : String → Call
  identified : String → Call
  left_alive : Bool → Call
  exits : ℕ → Call
  stop_asked : InputSource → Call

-- The parameters of the session's operations.
pub record Outside (V : Type 0) : Type 0 where
  pub renderer : Renderer V
  pub patterns : Patterns
  pub reports : Reports
  pub canonical : Bool → String → Option String
  pub ring_write : List ℕ → List ℕ → List ℕ
  pub pty : Winsize → Bool

module _ {V : Type 0} (o : Outside V) where
  unfoldable pub step : Session V → Call → Session V
  step s (heard now chunk) = note_agent_output o.renderer o.patterns now chunk s
  step s (fanned chunk) = fan_out o.ring_write chunk s
  step s (hooked now h) = apply_codex_hook o.renderer o.canonical now h s
  step s (stopped now) = set_idle o.renderer now s
  step s asked = set_waiting s
  step s confirmed = mark_hooks_alive s
  step s (judged v) = set_monitor_status v s
  step s acknowledged = clear_waiting_on_attach s
  step s (typed now p source) = (write_input o.renderer o.reports now p source s).0
  step s (attached id) = (attach id s).0
  step s (detached id) = detach id s
  step s (received id) = receive id s
  step s (resized now cols rows force) = (resize o.renderer o.pty now cols rows force s).0
  step s (labelled label) = set_label label s
  step s (identified id) = set_codex_session_id id s
  step s (left_alive alive) = set_detached alive s
  step s (exits code) = mark_exited code s
  step s (stop_asked source) = request_stop source s

  unfoldable pub run : Session V → List Call → Session V
  run s [] = s
  run s (c ∷ cs) = run (step s c) cs

  -- What a client is told of an exit, and that no connection is left.
  abbrev pub SameExit : Session V → Session V → Type 0
  SameExit s t =
      (t.status ≡ s.status)
      × (t.exit_code ≡ s.exit_code)
      × (t.exit_source ≡ s.exit_source)
      × (t.conns ≡ [])

  -- Output, hooks and input do not touch the lifecycle.
  abbrev SameLife : Session V → Session V → Type 0
  SameLife s t =
      (t.status ≡ s.status)
      × (t.exit_code ≡ s.exit_code)
      × (t.exit_source ≡ s.exit_source)
      × (t.conns ≡ s.conns)
      × (t.stop_requested ≡ s.stop_requested)

  note_codex_output-SameLife :
      (now : Time) (chunk : List ℕ) (s : Session V)
      → SameLife s (note_codex_output o.renderer o.patterns now chunk s)
  unfolding note_codex_output
  note_codex_output-SameLife now chunk s = ground arith

  note_agent_output-SameLife :
      (now : Time) (chunk : List ℕ) (s : Session V)
      → SameLife s (note_agent_output o.renderer o.patterns now chunk s)
  unfolding note_agent_output
  note_agent_output-SameLife now chunk s = ground (arith, note_codex_output-SameLife now chunk s)

  apply_codex_hook-SameLife :
      (now : Time) (h : CodexHook) (s : Session V)
      → SameLife s (apply_codex_hook o.renderer o.canonical now h s)
  unfolding apply_codex_hook
  apply_codex_hook-SameLife now h s = ground arith

  resize-SameLife :
      (now : Time) (cols rows : ℕ) (force : Bool) (s : Session V)
      → SameLife s (resize o.renderer o.pty now cols rows force s).0
  unfolding resize
  resize-SameLife now cols rows force s = ground arith

  step-SameExit :
      (s : Session V) (c : Call) → is_exited s.status ≡ true → s.conns ≡ [] → SameExit s (step s c)
  unfolding step
  step-SameExit s (heard now chunk) x e = ground (arith, note_agent_output-SameLife now chunk s)
  step-SameExit s (fanned chunk) x e = unfold fan_out deliver in ground arith
  step-SameExit s (hooked now h) x e = ground (arith, apply_codex_hook-SameLife now h s)
  step-SameExit s (stopped now) x e = unfold set_idle in ground arith
  step-SameExit s asked x e = unfold set_waiting in ground arith
  step-SameExit s confirmed x e = unfold mark_hooks_alive in ground arith
  step-SameExit s (judged v) x e = unfold set_monitor_status in ground arith
  step-SameExit s acknowledged x e = unfold clear_waiting_on_attach in ground arith
  step-SameExit s (typed now p source) x e = unfold write_input in ground arith
  step-SameExit s (attached id) x e = unfold attach in ground arith
  step-SameExit s (detached id) x e = unfold detach in ground arith
  step-SameExit s (received id) x e = unfold receive in ground arith
  step-SameExit s (resized now cols rows force) x e =
      ground (arith, resize-SameLife now cols rows force s)
  step-SameExit s (labelled label) x e = unfold set_label in ground arith
  step-SameExit s (identified id) x e = unfold set_codex_session_id in ground arith
  step-SameExit s (left_alive alive) x e = unfold set_detached in ground arith
  step-SameExit s (exits code) x e = unfold mark_exited in ground arith
  step-SameExit s (stop_asked source) x e = unfold request_stop in ground arith

  -- An exit is final: an exited session without connections keeps its status, exit code and exit
  -- source through any sequence of calls, reads as exited at any time, and registers no
  -- connection.
  pub exit_final :
      (s : Session V) (cs : List Call) (now : Time)
      → is_exited s.status ≡ true
      → s.conns ≡ []
      → SameExit s (run s cs) × (agent_status now (run s cs) ≡ gone)
  unfolding run agent_status
  exit_final s [] now x e = ground arith
  exit_final s (c ∷ cs) now x e =
      let kept = step-SameExit s c x e in ground (arith, exit_final (step s c) cs now)

  -- The process's exit is such a state: it is recorded with its code, and every connection ends.
  pub mark_exited_ends :
      (code : ℕ) (s : Session V)
      → is_exited s.status ≡ false
      → let t = mark_exited code s in
        (is_exited t.status ≡ true) × (t.exit_code ≡ code) × (t.conns ≡ [])
  unfolding mark_exited
  mark_exited_ends code s live = ground arith

  step_keeps_stop :
      (s : Session V) (c : Call)
      → s.stop_requested ≡ true
      → ((step s c).stop_requested ≡ true) × ((step s c).exit_source ≡ s.exit_source)
  unfolding step
  step_keeps_stop s (heard now chunk) x = ground (arith, note_agent_output-SameLife now chunk s)
  step_keeps_stop s (fanned chunk) x = unfold fan_out in ground arith
  step_keeps_stop s (hooked now h) x = ground (arith, apply_codex_hook-SameLife now h s)
  step_keeps_stop s (stopped now) x = unfold set_idle in ground arith
  step_keeps_stop s asked x = unfold set_waiting in ground arith
  step_keeps_stop s confirmed x = unfold mark_hooks_alive in ground arith
  step_keeps_stop s (judged v) x = unfold set_monitor_status in ground arith
  step_keeps_stop s acknowledged x = unfold clear_waiting_on_attach in ground arith
  step_keeps_stop s (typed now p source) x = unfold write_input in ground arith
  step_keeps_stop s (attached id) x = unfold attach in ground arith
  step_keeps_stop s (detached id) x = unfold detach in ground arith
  step_keeps_stop s (received id) x = unfold receive in ground arith
  step_keeps_stop s (resized now cols rows force) x =
      ground (arith, resize-SameLife now cols rows force s)
  step_keeps_stop s (labelled label) x = unfold set_label in ground arith
  step_keeps_stop s (identified id) x = unfold set_codex_session_id in ground arith
  step_keeps_stop s (left_alive alive) x = unfold set_detached in ground arith
  step_keeps_stop s (exits code) x = unfold mark_exited in ground arith
  step_keeps_stop s (stop_asked source) x = unfold request_stop in ground arith

  -- An exit is put down to the first stop that was asked for: where a stop was recorded, no further
  -- stop, input, output, hook or exit, in any sequence, changes the recorded source.
  pub stop_source_kept :
      (s : Session V) (cs : List Call)
      → s.stop_requested ≡ true
      → (run s cs).exit_source ≡ s.exit_source
  unfolding run
  stop_source_kept s [] x = refl
  stop_source_kept s (c ∷ cs) x =
      ground (arith, step_keeps_stop s c x, stop_source_kept (step s c) cs)
