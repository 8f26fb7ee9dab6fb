-- ===== src/Session/Codex/Output.antt =====
-- `noteCodexOutputLocked` of internal/session/codex_status.go: output reaches the observer
-- terminal rune by whole rune, and the screen that it renders is evidence of the status.
use kamacu.Common.{
  ℕ, ◌-◌, ◌≡◌, refl, Bool, true, false, not, ◌&&◌, ◌||◌, none, some, List, ◌++◌, arith,
  if◌then◌else◌, ltb, ◌==◌, Time, min, take, drop, complete_end, Text, text_eq,
}
use kamacu.Observation.{Renderer}
use kamacu.Session.{
  CodexStatus, Session, ScreenStatus, unclear, seen_working, seen_waiting, seen_idle, Winsize,
  AgentStatus, working, waiting, idle, agent_settle_window,
}
use kamacu.Session.Codex.{codex_state_of, codex_status}
use kamacu.Session.Codex.Screen.{Patterns, codex_screen_status}

-- A width of 0 stands for an unknown one.
unfoldable pub codex_observer_size : ℕ → ℕ → ℕ × ℕ
codex_observer_size cols rows =
    (min (if cols == 0 then 80 else cols) 500, min (if rows == 0 then 24 else rows) 200)

module _ {V : Type 0} (r : Renderer V) (m : Patterns) where
  -- The terminal behind the complete runes of the chunk; the rest waits.
  unfoldable pub write_observer : Winsize → List ℕ → CodexStatus V → CodexStatus V × V
  unfolding codex_observer_size complete_end
  write_observer size chunk c =
      let (cols, rows) = codex_observer_size size.cols size.rows in
      let vt : V = elim c.terminal [ none ↦ r.fresh cols rows | some v ↦ v ] in
      let bytes = c.utf8_tail ++ chunk in
      let end = complete_end bytes in
      let written = r.write vt (take end bytes) in
      (record c { terminal = some written; utf8_tail = drop end bytes }, written)

  -- The switch over the evidence, on the state and `waiting`.
  unfoldable pub take_evidence : ScreenStatus → CodexStatus V × Bool → CodexStatus V × Bool
  take_evidence seen_working (c, w) =
      (record c { screen_status = seen_working; active = true }, false)
  take_evidence seen_waiting (c, w) = (record c { screen_status = seen_waiting }, true)
  take_evidence seen_idle (c, w) =
      (record c { screen_status = seen_idle; lifecycle = true; active = false }, false)
  take_evidence unclear (c, w) = (record c { screen_status = unclear }, w)

  abbrev pub is_seen_working : ScreenStatus → Bool
  is_seen_working seen_working = true
  is_seen_working _ = false

  -- The last paint of a turn that has just ended is no new turn.
  unfoldable pub is_settling : Time → CodexStatus V → Bool
  is_settling now c = not (c.ended_at == 0) && ltb (now - c.ended_at) agent_settle_window

  -- What the chunk makes the observer render.
  abbrev pub rendered : Session V → List ℕ → Text
  rendered s chunk = r.text (write_observer s.last_winsize chunk (codex_state_of s.codex_state)).1

  unfoldable pub note_codex_output : Time → List ℕ → Session V → Session V
  note_codex_output now chunk s =
      let (c, vt) = write_observer s.last_winsize chunk (codex_state_of s.codex_state) in
      let evidence = codex_screen_status m (r.text vt) in
      let (d, w) = take_evidence evidence (c, s.waiting) in
      if text_eq (r.text vt) c.ignore_screen || (is_settling now c && is_seen_working evidence)
      then record s { codex_state = some c }
      else record s { codex_state = some d; waiting = w }

  -- The chunk itself changes only the observer: the fields that a status is read from stay.
  write_observer_keeps :
      (size : Winsize) (chunk : List ℕ) (c : CodexStatus V)
      → let d = (write_observer size chunk c).0 in
        (d.active ≡ c.active)
        × (d.lifecycle ≡ c.lifecycle)
        × (d.screen_status ≡ c.screen_status)
        × (d.ended_at ≡ c.ended_at)
        × (d.ignore_screen ≡ c.ignore_screen)
        × (d.turn ≡ c.turn)
        × (d.completed ≡ c.completed)
  unfolding write_observer
  write_observer_keeps size chunk c = (refl, refl, refl, refl, refl, refl, refl)

  -- The screen that stood when a turn began or ended is no evidence, and neither is a running
  -- footer that is painted within the settle window of a turn's end: the status that is read
  -- afterwards, at any time, is the one that was read before.
  pub output_ignored :
      (now later : Time) (chunk : List ℕ) (s : Session V)
      → let c = codex_state_of s.codex_state in
        (text_eq (rendered s chunk) c.ignore_screen
            || (is_settling now c && is_seen_working (codex_screen_status m (rendered s chunk))))
          ≡ true
        → codex_status later (note_codex_output now chunk s) ≡ codex_status later s
  unfolding note_codex_output codex_status is_settling
  output_ignored now later chunk s ignored =
      ground (arith, write_observer_keeps s.last_winsize chunk (codex_state_of s.codex_state))

  abbrev pub Reads : ScreenStatus → AgentStatus → AgentStatus → Type 0
  Reads seen_working before after = after ≡ working
  Reads seen_waiting before after = after ≡ waiting
  Reads seen_idle before after = after ≡ idle
  Reads unclear before after = Unit

  -- Any other output is evidence: a screen that shows a running turn, a menu or an end is what the
  -- status then reads, at any time, whatever it was before.
  pub output_evidence :
      (now later : Time) (chunk : List ℕ) (s : Session V)
      → let c = codex_state_of s.codex_state in
        let seen = codex_screen_status m (rendered s chunk) in
        (text_eq (rendered s chunk) c.ignore_screen || (is_settling now c && is_seen_working seen))
          ≡ false
        → Reads seen (codex_status later s) (codex_status later (note_codex_output now chunk s))
  unfolding note_codex_output codex_status is_settling take_evidence
  output_evidence now later chunk s counts =
      ground (arith, write_observer_keeps s.last_winsize chunk (codex_state_of s.codex_state))
