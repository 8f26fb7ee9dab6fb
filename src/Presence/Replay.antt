-- ===== src/Presence/Replay.antt =====
-- Heartbeats that arrive late or twice, and views that are asked about afterwards
-- (internal/presence/presence.go).
use kamacu.Common
use kamacu.Common.{
  ℕ, suc, ◌+◌, ◌-◌, ◌≤◌, ◌<◌, ◌≡◌, refl, sym, ap, ◌∙◌, Bool, true, false, not, ◌&&◌, ◌||◌, Option,
  none, some, List, [], ◌∷◌, ◌++◌, String, str_eq, str_eq_iff, Time, if◌then◌else◌, arith, ltb, leb,
  any, length, drop, length-append, lookup, insert, lookup-insert, string_eq,
}
use kamacu.Presence.{
  Beat, ClientState, Tracker, Interval, history_size, trim, shown_until, left_behind, heartbeat,
  views, covers, viewing_at, active_window,
}

-- Behind an accepted beat with a number, a beat of the same tab with the same or a smaller number
-- is refused and changes nothing, whenever it comes.
pub replay_refused :
    (now later : Time) (b c : Beat) (t : Tracker)
    → 0 < b.sequence
    → c.sequence ≤ b.sequence
    → c.client_id ≡ b.client_id
    → (heartbeat now b t).1 ≡ true
    → heartbeat later c (heartbeat now b t).0 ≡ ((heartbeat now b t).0, false)
unfolding heartbeat
replay_refused now later b c t pos old same taken =
    let e =
      lookup-insert b.client_id c.client_id (record { beat = b; last_seen = now }) t.clients in
    ground (arith, e, str_eq_iff b.client_id c.client_id)

any_found :
    (p : String × ClientState → Bool) (id : String) (c : ClientState)
    (m : List (String × ClientState))
    → lookup id m ≡ some c
    → ((j : String) → p (j, c) ≡ true)
    → any p m ≡ true
any_found p id c [] e h = ground arith
any_found p id c ((j, d) ∷ m) e h = ground (arith, any_found p id c m, h j)

any-append_last :
    (p : Interval → Bool) (h : List Interval) (v : Interval)
    → p v ≡ true
    → any p (h ++ v ∷ []) ≡ true
any-append_last p [] v e = ground arith
any-append_last p (u ∷ h) v e = ground (arith, any-append_last p h v e)

-- Dropping fewer entries than there are keeps the last one.
drop-append_last :
    (n : ℕ) (h : List Interval) (v : Interval)
    → n ≤ length h
    → drop n (h ++ v ∷ []) ≡ drop n h ++ v ∷ []
drop-append_last Common.zero h v e = refl
drop-append_last (suc n) [] v e = absurd (omega arith)
drop-append_last (suc n) (u ∷ h) v e = drop-append_last n h v (omega arith)

any-trim_last :
    (p : Interval → Bool) (h : List Interval) (v : Interval)
    → p v ≡ true
    → any p (trim (h ++ v ∷ [])) ≡ true
unfolding trim
any-trim_last p h v e =
    let n = length (h ++ v ∷ []) - history_size in
    rw (drop-append_last n h v (omega (arith, length-append h (v ∷ []))))
      (any-append_last p (drop n h) v e)

or_true : (x : Bool) → (x || true) ≡ true
or_true true = refl
or_true false = refl

-- What a beat that is taken leaves.
taken_client :
    (now : Time) (b : Beat) (t : Tracker)
    → (heartbeat now b t).1 ≡ true
    → lookup b.client_id (heartbeat now b t).0.clients ≡ some (record { beat = b; last_seen = now })
unfolding heartbeat
taken_client now b t taken = ground (
  arith,
  lookup-insert b.client_id b.client_id (record { beat = b; last_seen = now }) t.clients,
  str_eq_iff b.client_id b.client_id,
)

taken_history :
    (now : Time) (b : Beat) (t : Tracker)
    → (heartbeat now b t).1 ≡ true
    → (heartbeat now b t).0.history ≡ left_behind now (lookup b.client_id t.clients) t.history
unfolding heartbeat
taken_history now b t taken = ground arith

-- A tab whose accepted beat is visible and shows a session is seen there from that beat on, until
-- the window is over.
pub beat_seen :
    (now at : Time) (b : Beat) (t : Tracker)
    → b.visible ≡ true
    → (heartbeat now b t).1 ≡ true
    → now ≤ at
    → at ≤ now + active_window
    → viewing_at b.session_id at (heartbeat now b t).0 ≡ true
unfolding viewing_at
beat_seen now at b t shown taken from until =
    let view : ClientState = record { beat = b; last_seen = now } in
    let views_now : views b.session_id at view ≡ true =
      ground (arith, str_eq_iff b.session_id b.session_id) in
    let found =
      any_found (λ e. views b.session_id at e.1) b.client_id view (heartbeat now b t).0.clients
        (taken_client now b t taken) (λ j. views_now) in
    rw found

-- Where a tab showed a session and has moved on, that it did is remembered: behind a visible beat
-- for a session and a later beat of the same tab, both accepted, the question at any moment
-- between the two is answered yes, up to the window.
pub view_remembered :
    (now later at : Time) (b c : Beat) (t : Tracker)
    → b.visible ≡ true
    → str_eq b.session_id "" ≡ false
    → c.client_id ≡ b.client_id
    → (heartbeat now b t).1 ≡ true
    → (heartbeat later c (heartbeat now b t).0).1 ≡ true
    → now ≤ at
    → at < later
    → at < now + active_window
    → viewing_at b.session_id at (heartbeat later c (heartbeat now b t).0).0 ≡ true
unfolding viewing_at
view_remembered now later at b c t shown set same taken taken' from before until =
    let u = (heartbeat now b t).0 in
    let view : ClientState = record { beat = b; last_seen = now } in
    let v = shown_until later view in
    let kept : (heartbeat later c u).0.history ≡ trim (u.history ++ v ∷ []) =
      taken_history later c u taken' ∙ rw (same, taken_client now b t taken, shown, set) in
    let covered : covers b.session_id at v ≡ true =
      ground (arith, str_eq_iff b.session_id b.session_id) in
    rw (kept, any-trim_last (covers b.session_id at) u.history v covered) (or_true _)
