-- ===== src/Inbox.antt =====
-- internal/inbox: the questions that agents, the observer of terminals and notifications put to the
-- user. The table of questions is a list of rows in the order of their insertion; SQLite runs each
-- statement as written, and a method holds the mutex from its first query to its last. Columns that
-- only joins and displays read are left out. A `Text` is valid UTF-8.
pub mod Rows
pub mod Requests
pub mod Service
pub mod Observer
pub mod Writes
pub mod Unique
pub mod Pending
pub mod Durable
pub mod Retry
pub mod Calls
pub mod Atomic
pub mod Methods
pub mod Answering
use kamacu.Common.{ℕ, Bool, true, false, Option, List, String, Text}

pub data Status : Type 0 where
  pending answered dismissed unanswered : Status

pub record Choice : Type 0 where
  pub id : String
  pub label : Text

-- A task id of 0 is NULL in the table, the Scratchpad.
pub record Question : Type 0 where
  pub id : String
  pub task_id : ℕ
  pub session_id : String
  pub created_session_id : String
  pub request_key : Text
  pub abstract_text : Text
  pub summary : Text
  pub context : Text
  pub question : Text
  pub options : List Choice
  pub status : Status
  pub reason : String
  pub answer : Text
  pub answer_source : String
  pub revision : ℕ
  pub created_at : ℕ
  pub updated_at : ℕ
  pub heartbeat_at : ℕ
  pub acknowledged_at : Option ℕ
  pub kind : String
  pub origin : String
  pub hidden : Bool
  pub delivery_mode : String
  pub delivery_status : String
  pub evidence_revision : ℕ
  pub input_generation : ℕ
  pub completion_task_status : String

pub record Identity : Type 0 where
  pub task_id : ℕ
  pub session_id : String

-- `Session`, as `Lookup` reports it.
pub record Live : Type 0 where
  pub revision : ℕ
  pub input : ℕ
  pub task_id : ℕ
  pub global : Bool
  pub live : Bool

pub record Create : Type 0 where
  pub key : Text
  pub abstract_text : Text
  pub summary : Text
  pub context : Text
  pub question : Text
  pub options : List Choice
  pub origin : String
  pub delivery_mode : String
  pub evidence_revision : ℕ
  pub input_generation : ℕ
  pub completion_task_status : String

-- A row of `inbox_events`.
pub record HistoryEvent : Type 0 where
  pub question_id : String
  pub kind : String
  pub session_id : String
  pub created_at : ℕ

-- The errors by what `errors.Is` tells of them; `storage` is a refusal of the database.
pub data InboxError : Type 0 where
  invalid identity not_found owner conflict storage : InboxError

-- `Result.Outcome`; `now_is` is `outcome(q)`.
pub data Outcome : Type 0 where
  created existing existing_pending accepted stale_revision already_resolved reopened : Outcome
  now_is : Status → Outcome

pub data Reply : Type 0 where
  refused : InboxError → Reply
  told : Outcome → Question → Reply

-- What is asked of the rest of the program: the live sessions, the source and status of a task, and
-- the board's transaction that moves a task.
pub record World (T : Type 0) : Type 0 where
  pub session_of : String → Live
  pub task_row : T → ℕ → Option (String × String)
  pub mover : Option (T → ℕ → String → Option T)

-- The database, as far as the service writes it, and `terminalManaged`.
pub record Inbox (T : Type 0) : Type 0 where
  pub rows : List Question
  pub events : List HistoryEvent
  pub runs : List String
  pub tasks : T
  pub terminal_managed : Bool

abbrev pub is_pending : Status → Bool
is_pending pending = true
is_pending _ = false

abbrev pub is_answered : Status → Bool
is_answered answered = true
is_answered _ = false

abbrev pub is_unanswered : Status → Bool
is_unanswered unanswered = true
is_unanswered _ = false

abbrev pub is_dismissed : Status → Bool
is_dismissed dismissed = true
is_dismissed _ = false
