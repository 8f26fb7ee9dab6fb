-- ===== src/Session/Codex/Delayed.antt =====
-- Hooks of `ApplyCodexHook` (internal/session/codex_status.go) that arrive behind the end of their
-- turn.
use kamacu.Common.{◌≡◌, true, false, not, ◌||◌, String, str_eq, if◌then◌else◌}
use kamacu.Session.{Session}
use kamacu.Session.Codex.{CodexHook, is_set, mem_text, codex_state_of, is_seen_waiting}

-- The turn is remembered as finished, and nothing runs or waits.
record HasEnded {V : Type 0} (root t : String) (s : Session V) : Type 0 where
  known : (codex_state_of s.codex_state).session_id ≡ root
  over : mem_text t (codex_state_of s.codex_state).completed ≡ true
  active : (codex_state_of s.codex_state).active ≡ false
  lifecycle : (codex_state_of s.codex_state).lifecycle ≡ true
  seen : is_seen_waiting (codex_state_of s.codex_state).screen_status ≡ false
  waiting : s.waiting ≡ false

-- The hook names the turn and no other session than the root's.
abbrev pub IsDelayed : String → String → CodexHook → Type 0
IsDelayed root t h =
    (h.turn_id ≡ t) × ((not (is_set h.session_id) || str_eq root h.session_id) ≡ true)

-- The session that the state follows behind a hook of its own.
abbrev pub root_of : CodexHook → String → String
root_of h id = if is_set h.session_id then h.session_id else id
