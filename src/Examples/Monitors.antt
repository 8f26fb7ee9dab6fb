-- ===== src/Examples/Monitors.antt =====
-- Runs of internal/monitor/efficiency.go.
use kamacu.Common.{◌≡◌, refl, true, false, [], ◌∷◌, ◌++◌, Text, codes, arith, has_prefix}
use kamacu.Observation.{Snapshot, empty_snapshot}
use kamacu.Monitor.Screen.{Footers}
use kamacu.Monitor.Schedule.{
  TaskContext, unknown, no_kind, Recognizers, Watch, inference_schedule, start_attempt,
}
use kamacu.Monitor.Schedule.Urgency.{Look, look_all, change_kept}
use kamacu.Monitor.Schedule.Deferral.{starts, attempt_consumes}

abbrev footers : Footers
footers = record {
  codex_footer = λ l. has_prefix l (codes "working (");
  codex_neutral = λ l. codes "working";
  claude_footer = λ l. false;
  claude_neutral = λ l. l;
}

abbrev screen : Text
screen = codes "reading the file" ++ 10 ∷ codes "working (3s)"

abbrev recognizers : Recognizers
recognizers = record {
  active_generation = λ s e. true;
  dialog = λ s e. "";
  meaningful = λ s e. "m";
}

abbrev task : TaskContext
task = record {
  project_id = 1;
  project_name = "kamacu";
  previous_work = "";
  id = 4;
  title = "fix";
  description = "";
  status = "doing";
  source = "local";
  scope = "";
  engine = "codex";
}

abbrev shot : Snapshot
shot = record empty_snapshot { revision = 3; screen = screen; input_at = 99000000000 }

-- A watch of a generating agent, asked about a second ago.
abbrev generating_watch : Watch
generating_watch = record {
  task_context = task;
  revision = 3;
  input = 0;
  profile = "p";
  last_attempt = 100000000000;
  retry_after = 0;
  reusable = false;
  last_change = 100000000000;
  last_input_at = 0;
  input_pending = false;
  fresh_dialog = false;
  typing_deferred = false;
  cancel_reason = "";
  observed_revision = 3;
  observed_content = "m";
  observed_signals = "";
  observed_input = 0;
  observed_profile = "p";
  observed_task = task;
  observation_started = 0;
  generating = true;
  urgent = false;
  deferred = false;
  busy = false;
  decision = record { kind = no_kind; state = unknown; evidence = [] };
  evidence = empty_snapshot;
}

abbrev busy_watch : Watch
busy_watch = record generating_watch { busy = true }

attempt_consumes_example :
    starts (
      inference_schedule recognizers false shot 111000000000
        (start_attempt 110000000000 generating_watch))
    ≡ false
attempt_consumes_example =
    attempt_consumes recognizers shot 110000000000 111000000000 generating_watch (omega arith)
      (omega arith)

-- The generation has stopped: the next screen shows none.
abbrev quiet : Recognizers
quiet = record recognizers { active_generation = λ s e. false }

abbrev later_shot : Snapshot
later_shot = record shot { revision = 4 }

abbrev stopped_look : Look
stopped_look = record { snap = later_shot; profile = "p"; task = task; now = 104000000000 }

abbrev next_look : Look
next_look = record stopped_look { snap = record later_shot { revision = 5 }; now = 105000000000 }

change_kept_example :
    (look_all quiet generating_watch (stopped_look ∷ next_look ∷ [])).urgent ≡ true
change_kept_example =
    change_kept quiet generating_watch stopped_look (next_look ∷ []) refl refl (refl, (refl, tt))
      refl
