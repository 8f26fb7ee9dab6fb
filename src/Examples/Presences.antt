-- ===== src/Examples/Presences.antt =====
-- Runs of internal/presence/presence.go.
use kamacu.Common.{ℕ, ◌≡◌, refl, true, false, [], ◌∷◌, String, arith}
use kamacu.Presence.{Beat, Tracker, new, heartbeat, snapshot, viewing_at}
use kamacu.Presence.Replay.{view_remembered}
use kamacu.Presence.Focus.{active_iff}

abbrev beat : ℕ → String → Beat
beat n session = record {
  sequence = n;
  client_id = "tab";
  route = "session";
  project_id = 1;
  task_id = 2;
  session_id = session;
  visible = true;
}

abbrev seen : Tracker
seen = record new {
  clients = ("tab", record { beat = beat 1 "s1"; last_seen = 100000000000 }) ∷ [];
  last_present_at = 100000000000;
}

active_iff_example :
    ((snapshot 130000000000 seen).1.active ≡ false)
    × ((snapshot 130000000000 seen).1.away_for_seconds ≡ 30)
active_iff_example = active_iff 130000000000 seen

view_remembered_example :
    viewing_at "s2" 103000000000
      (heartbeat 104000000000 (beat 4 "s3") (heartbeat 102000000000 (beat 3 "s2") seen).0).0
    ≡ true
unfolding heartbeat
view_remembered_example =
    view_remembered 102000000000 104000000000 103000000000 (beat 3 "s2") (beat 4 "s3") seen refl
      refl refl refl refl (omega arith) (omega arith) (omega arith)
