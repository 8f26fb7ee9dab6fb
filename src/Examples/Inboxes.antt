-- ===== src/Examples/Inboxes.antt =====
-- Runs of internal/inbox: a session of a task, whose board moves any task it is asked to.
use kamacu.Common.{
  ◌≤◌, ◌<◌, List, ◌≡◌, refl, true, false, none, some, [], ◌∷◌, codes, arith, if◌then◌else◌, String,
  str_eq, trim_space,
}
use kamacu.Inbox.{
  Question, Identity, Create, World, Inbox, Live, answered, dismissed, is_pending, is_answered,
  told, existing,
}
use kamacu.Inbox.Rows.{row_of}
use kamacu.Inbox.Requests.{valid, validate}
use kamacu.Inbox.Service.{
  new_question, reconcile, create, create_locked, dismiss, reopen, transition,
}
use kamacu.Inbox.Answering.{answer}
use kamacu.Inbox.Unique.{IsTable}
use kamacu.Inbox.Pending.{HasOnePending}
use kamacu.Inbox.Calls.{
  start, then_call, creates, answers, reopens, dismisses, Served-IsTable, answer_final,
  revision_grows,
}
use kamacu.Inbox.Retry.{create_again}
use kamacu.Inbox.Atomic.{IsAtomic, answer-IsAtomic}

abbrev live_session : Live
live_session = record { revision = 4; input = 2; task_id = 3; global = false; live = true }

-- The status of one task is all there is on the board.
abbrev world : World String
world = record {
  session_of = λ id. if str_eq id "s1" then live_session else record live_session { live = false };
  task_row = λ t id. some ("manual", t);
  mover = some (λ t id target. some target);
}

abbrev agent_of_task : Identity
agent_of_task = record { task_id = 3; session_id = "s1" }

abbrev request : Create
request = record {
  key = codes "k1";
  abstract_text = codes "a";
  summary = codes "s";
  context = codes "c";
  question = codes "q";
  options = record { id = "y"; label = codes "yes" } ∷ [];
  origin = "";
  delivery_mode = "";
  evidence_revision = 0;
  input_generation = 0;
  completion_task_status = "";
}

abbrev nothing : Inbox String
nothing = record {
  rows = [];
  events = [];
  runs = [];
  tasks = "in_progress";
  terminal_managed = false;
}

abbrev first_question : Question
first_question = new_question 10 "q1" agent_of_task "question" request

nothing-IsTable : IsTable nothing.rows
nothing-IsTable = record { unique = λ id. omega arith; requested = λ t s k. omega arith }

abbrev asked_once : Inbox String
asked_once = record nothing { rows = first_question ∷ [] }

-- A question is made, dismissed and reopened.
abbrev reopened_table : List Question
reopened_table =
    (reopen world 30 agent_of_task "q1" 1 true
      (dismiss world 20 "q1" 1
        (create world 10 "q1" agent_of_task request "question" nothing).0).0).0.rows

Served-IsTable_example :
    IsTable reopened_table
    × ((session : String) → HasOnePending session [] → HasOnePending session reopened_table)
Served-IsTable_example =
    Served-IsTable
      (then_call world 30
        (then_call world 20
          (then_call world 10 start (creates "q1" agent_of_task request "question" refl))
          (dismisses "q1" 1))
        (reopens agent_of_task "q1" 1 true))
      nothing-IsTable

abbrev yes_question : Question
yes_question = record first_question {
  status = answered;
  answer = codes "yes";
  answer_source = "inbox";
}

abbrev answered_once : Inbox String
answered_once = record nothing { rows = yes_question ∷ [] }

answer_final_example :
    (r : Question) × (row_of "q1"
        (reopen world 30 agent_of_task "q1" 1 true (dismiss world 20 "q1" 1 answered_once).0).0.rows
      ≡ some r)
    × (is_answered r.status ≡ true)
    × (r.answer ≡ codes "yes")
    × (r.answer_source ≡ "inbox")
answer_final_example =
    answer_final "q1" yes_question
      (then_call world 30 (then_call world 20 start (dismisses "q1" 1))
        (reopens agent_of_task "q1" 1 true))
      refl refl

abbrev dismissed_once : Inbox String
dismissed_once = record nothing { rows = record first_question { status = dismissed } ∷ [] }

revision_grows_example :
    (r : Question) × (row_of "q1" (reopen world 30 agent_of_task "q1" 1 true dismissed_once).0.rows
      ≡ some r)
    × (1 ≤ r.revision)
    × (false ≡ false → is_pending r.status ≡ true → 1 < r.revision)
revision_grows_example =
    revision_grows "q1" (record first_question { status = dismissed })
      (then_call world 30 start (reopens agent_of_task "q1" 1 true)) refl

abbrev made_once : Inbox String
made_once = (create world 10 "q1" agent_of_task request "question" nothing).0

-- Answered, and asked again in other words.
abbrev answered_then : Inbox String
answered_then = (answer world 20 none "q1" 1 (codes "yes") "" made_once).0

abbrev reworded : Create
reworded = record request { question = codes "Shall I?" }

create_again_example :
    (r : Question) × (r.id ≡ "q1")
    × (create world 90 "q2" agent_of_task reworded "question" answered_then
        ≡ (reconcile world 90 answered_then, told existing r))
unfolding create create_locked reconcile transition valid validate trim_space answer
create_again_example =
    create_again world world 10 90 "q1" "q2" agent_of_task request reworded "question" "question"
      nothing made_once answered_then first_question refl refl
      (then_call world 20 start (answers none "q1" 1 (codes "yes") "")) refl refl refl

answer-IsAtomic_example :
    IsAtomic world 20 asked_once (answer world 20 none "q1" 1 (codes "no") "" asked_once)
answer-IsAtomic_example = answer-IsAtomic world 20 none "q1" 1 (codes "no") "" asked_once
