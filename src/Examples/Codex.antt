-- ===== src/Examples/Codex.antt =====
-- Runs of internal/session/codex_status.go.
use kamacu.Common.{
  ℕ, refl, Bool, false, Option, some, List, [], ◌∷◌, ◌++◌, String, arith, Text, codes,
}
use kamacu.Observation.{Snapshot, empty_snapshot}
use kamacu.Session.{Session, MonitorStatus, monitor_waiting}
use kamacu.Session.Codex.{HookEvent, CodexHook, stop, user_prompt_submit, codex_state_of}
use kamacu.Session.Codex.Turns.{IsFresh, run_hooks, run_hooks-IsFresh}
use kamacu.Examples.{toy, codex_turn, codex_live}

abbrev hook : HookEvent → String → String → CodexHook
hook event session turn = record {
  event = event;
  session_id = session;
  source = "";
  turn_id = turn;
  tool_use_id = "";
  tool_name = "";
  tool_input = "";
}

abbrev known : Bool → String → Option String
known b s = some s

turn-IsFresh : IsFresh codex_turn
turn-IsFresh = record { remembered = omega arith; unfinished = λ h. refl }

run_hooks-IsFresh_example : IsFresh (
    codex_state_of
      (run_hooks toy known
        ((5, hook stop "root" "t2") ∷ (6, hook user_prompt_submit "root" "t2") ∷ [])
        codex_live).codex_state)
run_hooks-IsFresh_example =
    run_hooks-IsFresh toy known
      ((5, hook stop "root" "t2") ∷ (6, hook user_prompt_submit "root" "t2") ∷ []) codex_live
      turn-IsFresh

-- A running footer, painted a second after the turn's end.
abbrev settled : Session (List ℕ)
settled = record codex_live {
  codex_state = some record codex_turn { turn = ""; active = false; ended_at = 1000000000 };
}

abbrev footer : List ℕ
footer = codes "working (1s)"

-- A menu with its chrome below it.
abbrev menu : Text
menu = codes "run it?" ++ 10 ∷ codes "1. yes" ++ 10 ∷ codes "enter to confirm"

abbrev busy_menu : Text
busy_menu = menu ++ 10 ∷ footer

abbrev old_verdict : MonitorStatus
old_verdict = record {
  state = monitor_waiting;
  health = "ready";
  detail = "approve the command";
  observed_at = 10;
}

abbrev newer : Snapshot
newer = record empty_snapshot { output_at = 20; input_at = 5 }
