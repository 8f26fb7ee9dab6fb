-- ===== src/Examples.antt =====
-- Runs of the models at concrete inputs: a toy renderer whose screen is what was written, toy
-- patterns, and a session, a quota service, a tracker and a watch in typical states.
mod Terminals
mod Sessions
mod Codex
mod Quotas
mod Presences
mod Monitors
mod RuleSets
mod Diffs
mod Inboxes
mod Reapers
mod SettingsTexts
mod Batches
mod Uploads
use kamacu.Common.{
  ℕ, Bool, true, false, Option, none, some, List, [], ◌∷◌, ◌++◌, String, Text, codes, text_eq,
  has_prefix,
}
use kamacu.Observation.{Renderer, Terminal, new}
use kamacu.Session.{Session, Kind, agent, running, exited, unset, monitor_other, CodexStatus}
use kamacu.Session.Codex.{empty_codex}
use kamacu.Session.Codex.Screen.{Patterns}
use kamacu.Session.Agent.{Reports}
use kamacu.Session.Lifecycle.Exits.{Outside}

-- The screen is the text that was written; its digest is the text itself.
abbrev toy : Renderer (List ℕ)
toy = record {
  fresh = λ cols rows. [];
  write = λ v p. v ++ p;
  text = λ v. v;
  resize = λ v cols rows. v;
  digest = λ s. s;
}

abbrev toy_patterns : Patterns
toy_patterns = record {
  lower = λ s. s;
  codex_running = λ l. has_prefix l (codes "working (");
  codex_interrupt = λ l. has_prefix l (codes "esc to interrupt");
  codex_choice = λ l. has_prefix l (codes "1. yes");
}

abbrev toy_reports : Reports
toy_reports = record { terminal_reports = λ p. 0; mouse_report = λ p. none }

abbrev toy_outside : Outside (List ℕ)
toy_outside = record {
  renderer = toy;
  patterns = toy_patterns;
  reports = toy_reports;
  canonical = λ known s. some s;
  ring_write = λ ring p. ring ++ p;
  pty = λ ws. true;
}

-- A running agent without an observer, with one window attached.
abbrev live : Session (List ℕ)
live = record {
  kind = agent;
  engine = "claude";
  codex_state = none;
  codex_session_id = "";
  label = "claude";
  observer = none;
  monitor = record { state = monitor_other ""; health = ""; detail = ""; observed_at = 0 };
  ring = 7 ∷ [];
  conns = ("first", []) ∷ [];
  status = running;
  exit_code = 0;
  last_winsize = record { rows = 24; cols = 80 };
  setsize_calls = 1;
  last_activity = 0;
  waiting = false;
  hooks_alive = true;
  stop_hook_at = 0;
  last_input_source = unset;
  exit_source = unset;
  stop_requested = false;
  in_osc = false;
  detached_alive = false;
}

abbrev waiting_agent : Session (List ℕ)
waiting_agent = record live { waiting = true }

-- A Codex session in its first turn, with an earlier turn finished.
abbrev codex_turn : CodexStatus (List ℕ)
codex_turn = record empty_codex {
  active = true;
  lifecycle = true;
  turn = "t2";
  session_id = "root";
  completed = "t1" ∷ [];
}

abbrev codex_live : Session (List ℕ)
codex_live = record live { engine = "codex"; codex_state = some codex_turn }
