-- ===== src/Presence/Window.antt =====
-- The history of past views is bounded (internal/presence/presence.go).
use kamacu.Common.{
  ◌-◌, ◌≤◌, List, [], ◌∷◌, ◌++◌, String, Time, arith, length, length-drop, Option, none, some,
  lookup, string_eq,
}
use kamacu.Presence.{
  Beat, Tracker, Interval, ClientState, history_size, trim, left_behind, heartbeat, note_user_input,
  prune, snapshot, new, shown_until, expired_intervals,
}

pub data Call : Type 0 where
  beats : Time → Beat → Call
  types : Time → String → Call
  reads : Time → Call

unfoldable pub step : Tracker → Call → Tracker
step t (beats now b) = (heartbeat now b t).0
step t (types now id) = note_user_input now id t
step t (reads now) = (snapshot now t).0

unfoldable pub run : Tracker → List Call → Tracker
run t [] = t
run t (c ∷ cs) = run (step t c) cs

abbrev pub IsSmall : Tracker → Type 0
IsSmall t = length t.history ≤ history_size

length-trim : (h : List Interval) → length (trim h) ≤ history_size
unfolding trim
length-trim h = omega (arith, length-drop (length h - history_size) h)

left_behind_small :
    (now : Time) (old : Option ClientState) (h : List Interval)
    → length h ≤ history_size
    → length (left_behind now old h) ≤ history_size
left_behind_small now none h small = small
left_behind_small now (some c) h small = ground (arith, length-trim (h ++ shown_until now c ∷ []))

step-IsSmall : (t : Tracker) (c : Call) → IsSmall t → IsSmall (step t c)
unfolding step heartbeat note_user_input snapshot prune
step-IsSmall t (beats now b) small =
    ground (arith, left_behind_small now (lookup b.client_id t.clients) t.history)
step-IsSmall t (types now id) small = small
step-IsSmall t (reads now) small = length-trim (t.history ++ expired_intervals now t.clients)

run-IsSmall : (t : Tracker) (cs : List Call) → IsSmall t → IsSmall (run t cs)
unfolding run
run-IsSmall t [] small = small
run-IsSmall t (c ∷ cs) small = run-IsSmall (step t c) cs (step-IsSmall t c small)

-- Whatever beats, input and reads a tracker has seen, it keeps at most 2048 past views.
pub past_views_bounded : (cs : List Call) → length (run new cs).history ≤ history_size
past_views_bounded cs = run-IsSmall new cs (omega arith)
