-- ===== src/Examples/Terminals.antt =====
-- Runs of internal/observation/terminal.go.
use kamacu.Common.{◌≤◌, List, [], ◌∷◌, All, arith, Text, codes}
use kamacu.Observation.{new, stamp}
use kamacu.Observation.History.{IsBounded}
use kamacu.Observation.Runs.{Event, fed, resized, typed, run, history-IsBounded}
use kamacu.Observation.Evidence.{stamp_bounded}
use kamacu.Examples.{toy}

abbrev events : List Event
events = fed 1 (codes "hello") ∷ resized 2 100 30 ∷ typed 3 ∷ fed 4 (10 ∷ codes "world") ∷ []

history-IsBounded_example : IsBounded (run toy (new toy 80 24) events).snap
history-IsBounded_example = history-IsBounded toy 80 24 events

abbrev lines : List Text
lines = codes "a" ∷ codes "b" ∷ codes "a" ∷ []

stamp_bounded_example : All (λ t. t ≤ 9) (stamp 9 lines ((codes "b", 4) ∷ []))
stamp_bounded_example = stamp_bounded 9 lines ((codes "b", 4) ∷ []) (omega arith, tt)
