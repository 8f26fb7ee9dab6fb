-- ===== src/Examples/Sessions.antt =====
-- Runs of internal/session/session.go and agent.go.
use kamacu.Common.{ℕ, ◌≡◌, refl, true, false, some, List, [], ◌∷◌, ◌++◌, arith, lookup, string_eq}
use kamacu.Session.{Session, gone, terminal, exited}
use kamacu.Session.Bell.{scan, scan_both, scan-append}
use kamacu.Session.Agent.{agent_status}
use kamacu.Session.Agent.Sticky.{IsHeard}
use kamacu.Session.Lifecycle.{attach}
use kamacu.Session.Lifecycle.Replay.{pump, attached_sees_all}
use kamacu.Session.Lifecycle.Exits.{
  heard, attached, exits, stop_asked, SameExit, run, exit_final, stop_source_kept,
}
use kamacu.Examples.{toy_outside, live, waiting_agent}

attached_sees_all_example :
    lookup "second"
      (pump (λ ring p. ring ++ p) ((1 ∷ []) ∷ (2 ∷ []) ∷ []) (attach "second" live).0).conns
    ≡ some ((7 ∷ []) ∷ (1 ∷ []) ∷ (2 ∷ []) ∷ [])
attached_sees_all_example =
    attached_sees_all (λ ring p. ring ++ p) ((1 ∷ []) ∷ (2 ∷ []) ∷ []) "second" live refl
      (omega arith)

live-IsHeard : IsHeard live
live-IsHeard = record { agent = refl; other_engine = refl; unobserved = refl; live = refl }

waiting-IsHeard : IsHeard waiting_agent
waiting-IsHeard = record { agent = refl; other_engine = refl; unobserved = refl; live = refl }

-- ESC ] 0 ; a BEL
abbrev title : List ℕ
title = 0x30 ∷ 0x3b ∷ 0x61 ∷ []

scan-append_example :
    scan false false ((65 ∷ 7 ∷ []) ++ (7 ∷ [])) ≡ scan_both false false (65 ∷ 7 ∷ []) (7 ∷ [])
scan-append_example = scan-append false (65 ∷ 7 ∷ []) (7 ∷ []) refl

abbrev ended : Session (List ℕ)
ended = record live { status = exited; exit_code = 2; conns = [] }

exit_final_example :
    let cs = heard 5 (65 ∷ []) ∷ attached "late" ∷ exits 0 ∷ [] in
    SameExit toy_outside ended (run toy_outside ended cs)
    × (agent_status 9 (run toy_outside ended cs) ≡ gone)
exit_final_example =
    exit_final toy_outside ended (heard 5 (65 ∷ []) ∷ attached "late" ∷ exits 0 ∷ []) 9 refl refl

abbrev stopping : Session (List ℕ)
stopping = record live { stop_requested = true; exit_source = terminal }

stop_source_kept_example :
    (run toy_outside stopping (heard 5 (65 ∷ []) ∷ stop_asked terminal ∷ exits 0 ∷ [])).exit_source
    ≡ terminal
stop_source_kept_example =
    stop_source_kept toy_outside stopping (heard 5 (65 ∷ []) ∷ stop_asked terminal ∷ exits 0 ∷ [])
      refl
