-- ===== src/Session.antt =====
-- internal/session/session.go: the state of one terminal session, with the Codex reducer of
-- internal/session/codex_status.go and the monitor's verdict of internal/session/observation.go.
pub mod Bell
pub mod Codex
pub mod Agent
pub mod Lifecycle
use kamacu.Common.{ℕ, Bool, Option, List, String, Time, Text}
use kamacu.Observation.{Terminal}

pub data Kind : Type 0 where
  bash agent : Kind

pub data Status : Type 0 where
  running exited : Status

-- What `Info` reports as `agentStatus`.
pub data AgentStatus : Type 0 where
  working idle waiting error gone : AgentStatus

-- `screenStatus`; `unclear` is the empty string.
pub data ScreenStatus : Type 0 where
  unclear seen_working seen_waiting seen_idle : ScreenStatus

-- `lastInputSource` and `exitSource`; `unset` is the empty string.
pub data InputSource : Type 0 where
  unset terminal external : InputSource

-- `MonitorStatus.State`, as far as the session reads it.
pub data MonitorState : Type 0 where
  monitor_waiting monitor_idle monitor_error : MonitorState
  monitor_other : String → MonitorState

pub record MonitorStatus : Type 0 where
  pub state : MonitorState
  pub health : String
  pub detail : String
  pub observed_at : Time

pub record Winsize : Type 0 where
  pub rows : ℕ
  pub cols : ℕ

-- `pending` is the key set of the Go map; a nil map reads as an empty one.
pub record CodexStatus (V : Type 0) : Type 0 where
  pub terminal : Option V
  pub utf8_tail : List ℕ
  pub active : Bool
  pub lifecycle : Bool
  pub turn : String
  pub session_id : String
  pub completed : List String
  pub pending : List String
  pub screen_status : ScreenStatus
  pub ignore_screen : Text
  pub ended_at : Time

-- The fields that the operations read or write. A connection's queue is the chunks that wait in
-- its channel; a closed channel has left the map.
pub record Session (V : Type 0) : Type 0 where
  pub kind : Kind
  pub engine : String
  pub codex_state : Option (CodexStatus V)
  pub codex_session_id : String
  pub label : String
  pub observer : Option (Terminal V)
  pub monitor : MonitorStatus
  pub ring : List ℕ
  pub conns : List (String × List (List ℕ))
  pub status : Status
  pub exit_code : ℕ
  pub last_winsize : Winsize
  pub setsize_calls : ℕ
  pub last_activity : Time
  pub waiting : Bool
  pub hooks_alive : Bool
  pub stop_hook_at : Time
  pub last_input_source : InputSource
  pub exit_source : InputSource
  pub stop_requested : Bool
  pub in_osc : Bool
  pub detached_alive : Bool

abbrev pub is_exited : Status → Bool
is_exited exited = Bool.true
is_exited running = Bool.false

abbrev pub is_agent : Kind → Bool
is_agent agent = Bool.true
is_agent bash = Bool.false

abbrev pub agent_settle_window : ℕ
agent_settle_window = 2000000000

abbrev pub agent_quiet_threshold : ℕ
agent_quiet_threshold = 10000000000
