-- ===== src/Session/Agent/Sticky.antt =====
-- What an agent's status keeps and what changes it (internal/session/session.go and
-- internal/session/observation.go).
use kamacu.Common
use kamacu.Common.{
  ℕ, zero, suc, ◌+◌, ◌-◌, ◌≤◌, ◌<◌, ◌≡◌, refl, Bool, true, false, not, Option, none, some, List, [],
  ◌∷◌, str_eq, Time, if◌then◌else◌, arith, ltb, leb, length, drop, length-drop, Bool-cases,
  Option-cases, inl, inr, ◌⊎◌,
}
use kamacu.Observation.{Renderer, Terminal, Snapshot, note_input}
use kamacu.Session.{
  Session, MonitorStatus, InputSource, working, idle, waiting, is_exited, is_agent,
  agent_settle_window, agent_quiet_threshold,
}
use kamacu.Session.Codex.Screen.{Patterns}
use kamacu.Session.Agent.{
  Reports, is_user_input, user_input_loop, is_passive, terminal_agent_status, agent_status,
  note_agent_output, set_idle, write_input,
}

-- A running agent, other than Codex, that no observer watches.
pub record IsHeard {V : Type 0} (s : Session V) : Type 0 where
  pub agent : is_agent s.kind ≡ true
  pub other_engine : str_eq s.engine "codex" ≡ false
  pub unobserved : s.observer ≡ none
  pub live : is_exited s.status ≡ false

-- A running agent, other than Codex, that an observer watches.
pub record IsWatched {V : Type 0} (s : Session V) (t : Terminal V) : Type 0 where
  pub agent : is_agent s.kind ≡ true
  pub observed : s.observer ≡ some t
  pub live : is_exited s.status ≡ false

module _ {V : Type 0} (r : Renderer V) (m : Patterns) where
  -- Output never ends waiting: a running agent, other than Codex and without an observer, that
  -- waits still waits after any chunk, at any time.
  pub output_keeps_waiting :
      (now later : Time) (chunk : List ℕ) (s : Session V)
      → IsHeard s
      → s.waiting ≡ true
      → agent_status later (note_agent_output r m now chunk s) ≡ waiting
  unfolding note_agent_output agent_status
  output_keeps_waiting now later chunk s h w =
      let a = h.agent in
      let o = h.other_engine in let u = h.unobserved in let l = h.live in ground arith

  -- What a running agent, other than Codex, without an observer and with working hooks, paints
  -- within the settle window of its Stop hook is no work: it reads as idle whatever the chunk
  -- holds, bells too, and however late the status is read.
  pub settling_output_idle :
      (stopped now later : Time) (chunk : List ℕ) (s : Session V)
      → IsHeard s
      → s.hooks_alive ≡ true
      → now ≤ stopped + agent_settle_window
      → agent_status later (note_agent_output r m now chunk (set_idle r stopped s)) ≡ idle
  unfolding note_agent_output agent_status set_idle
  settling_output_idle stopped now later chunk s h alive within = ground arith

  -- Output behind the settle window makes a running agent, other than Codex, without an observer
  -- and with working hooks, that does not wait work, for as long as the quiet threshold.
  pub output_works :
      (now later : Time) (chunk : List ℕ) (s : Session V)
      → IsHeard s
      → s.hooks_alive ≡ true
      → s.waiting ≡ false
      → s.stop_hook_at + agent_settle_window < now
      → later < now + agent_quiet_threshold
      → agent_status later (note_agent_output r m now chunk s) ≡ working
  unfolding note_agent_output agent_status
  output_works now later chunk s h alive w settled soon = ground arith

-- A verdict is about the screen and input that were classified: once there is output or input
-- after it, the status is working while that is recent, and idle behind that, whatever was said.
pub stale_verdict_ignored :
    (obs : Snapshot) (monitor : MonitorStatus) (now : Time)
    → (monitor.observed_at < obs.output_at) ⊎ (monitor.observed_at < obs.input_at)
    → terminal_agent_status obs monitor now
      ≡ (if ltb now (Common.max obs.output_at obs.input_at + 15000000000) then working else idle)
unfolding terminal_agent_status
stale_verdict_ignored obs monitor now newer = ground arith

module _ {V : Type 0} (r : Renderer V) where
  -- The user's input to a watched agent overrules every earlier verdict of the monitor: it reads as
  -- working for the next fifteen seconds.
  pub input_overrules_verdict :
      (m : Reports) (now later : Time) (p : List ℕ) (source : InputSource) (s : Session V)
      (t : Terminal V)
      → IsWatched s t
      → is_user_input m p ≡ true
      → s.monitor.observed_at < now
      → t.snap.output_at ≤ now
      → later < now + 15000000000
      → agent_status later (write_input r m now p source s).0 ≡ working
  unfolding write_input agent_status terminal_agent_status note_input
  input_overrules_verdict m now later p source s t h typed newer seen soon = ground arith

-- More fuel than bytes changes nothing, if a mouse report has a byte at least: the length is enough.
user_input_fuel :
    (m : Reports)
    → ((p : List ℕ) (k : ℕ) (b : Option ℕ) (up : Bool) → m.mouse_report p ≡ some (k, b, up) → 0 < k)
    → (f g : ℕ) (p : List ℕ) → length p ≤ f
    → length p ≤ g
    → user_input_loop m f p ≡ user_input_loop m g p
unfolding user_input_loop
user_input_fuel m pos f g [] hf hg = refl
user_input_fuel m pos zero g (b ∷ p) hf hg = absurd (omega arith)
user_input_fuel m pos (suc f) zero (b ∷ p) hf hg = absurd (omega arith)
user_input_fuel m pos (suc f) (suc g) (b ∷ p) hf hg =
    let n = m.terminal_reports (b ∷ p) in
    elim (Bool-cases (ltb 0 n)) [
      | inl some_report ↦
          rw (some_report, user_input_loop)
            (user_input_fuel m pos f g (drop n (b ∷ p)) (ground (arith, length-drop n (b ∷ p)))
              (ground (arith, length-drop n (b ∷ p))))
      | inr no_report ↦ elim (Option-cases (m.mouse_report (b ∷ p))) [
        | inl e ↦ rw (no_report, e, user_input_loop)
        | inr ((k, button, up), e) ↦ elim (Bool-cases (is_passive button up)) [
          | inl passive ↦
              rw (no_report, e, passive, user_input_loop)
                (user_input_fuel m pos f g (drop k (b ∷ p))
                  (omega (arith, length-drop k (b ∷ p), pos (b ∷ p) k button up e))
                  (omega (arith, length-drop k (b ∷ p), pos (b ∷ p) k button up e)))
          | inr press ↦ rw (no_report, e, press, user_input_loop)
        ]
      ]
    ]
