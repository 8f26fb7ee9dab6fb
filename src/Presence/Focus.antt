-- ===== src/Presence/Focus.antt =====
-- Where the user is, by the snapshot (internal/presence/presence.go).
use native.Mathlib.Nat.{le_trans}
use kamacu.Common.{
  ◌-◌, ◌/◌, ◌≤◌, ◌≡◌, refl, true, not, ◌&&◌, ◌||◌, Option, none, some, List, [], ◌∷◌, String, Time,
  second, if◌then◌else◌, arith, any, All, keep, ◌==◌,
}
use kamacu.Presence.{
  ClientState, Tracker, is_fresh, has_client, better, newest_visible, option_beat, prune, snapshot,
}

abbrev pub seen_at : Option ClientState → Time
seen_at none = 0
seen_at (some c) = c.last_seen

seen_at-better :
    (best : Option ClientState) (c : ClientState) → seen_at best ≤ seen_at (better best c)
seen_at-better none c = omega arith
seen_at-better (some b) c = ground arith

visible-better :
    (best : Option ClientState) (c : ClientState)
    → c.beat.visible ≡ true
    → c.last_seen ≤ seen_at (better best c)
visible-better none c h = ground arith
visible-better (some b) c h = ground arith

seen_at-newest :
    (best : Option ClientState) (cs : List (String × ClientState))
    → seen_at best ≤ seen_at (newest_visible best cs)
unfolding newest_visible
seen_at-newest best [] = omega arith
seen_at-newest best ((id, c) ∷ cs) =
    le_trans (seen_at-better best c) (seen_at-newest (better best c) cs)

newest_upper :
    (best : Option ClientState) (cs : List (String × ClientState))
    → All (λ e. e.1.beat.visible ≡ true → e.1.last_seen ≤ seen_at (newest_visible best cs)) cs
unfolding newest_visible
newest_upper best [] = tt
newest_upper best ((id, c) ∷ cs) = (
  (λ shown. le_trans (visible-better best c shown) (seen_at-newest (better best c) cs)),
  newest_upper (better best c) cs,
)

has_client-better :
    (best : Option ClientState) (c : ClientState)
    → has_client (better best c) ≡ (has_client best || c.beat.visible)
has_client-better none c = ground arith
has_client-better (some b) c = ground arith

has_client-newest :
    (best : Option ClientState) (cs : List (String × ClientState))
    → has_client (newest_visible best cs) ≡ (has_client best || any (λ e. e.1.beat.visible) cs)
unfolding newest_visible
has_client-newest best [] = ground arith
has_client-newest best ((id, c) ∷ cs) =
    ground (arith, has_client-newest (better best c) cs, has_client-better best c)

any-keep_fresh :
    (now : Time) (cs : List (String × ClientState))
    → any (λ e. e.1.beat.visible) (keep (λ e. is_fresh now e.1) cs)
      ≡ any (λ e. is_fresh now e.1 && e.1.beat.visible) cs
any-keep_fresh now [] = refl
any-keep_fresh now ((id, c) ∷ cs) = ground (arith, any-keep_fresh now cs)

-- The user is active exactly if some tab is both visible and fresh, and is away since the last
-- visible beat otherwise, if there ever was one.
pub active_iff :
    (now : Time) (t : Tracker)
    → let s = (snapshot now t).1 in
      let here = any (λ e. is_fresh now e.1 && e.1.beat.visible) t.clients in
      (s.active ≡ here)
      × (s.away_for_seconds ≡ (
          if not here && not (t.last_present_at == 0)
          then (now - t.last_present_at) / second
          else 0))
unfolding snapshot prune
active_iff now t =
    let fresh = keep (λ e. is_fresh now e.1) t.clients in
    ground (arith, has_client-newest none fresh, any-keep_fresh now t.clients)

-- The tab that the snapshot shows as viewed is one whose last beat is no older than that of any
-- other fresh and visible tab; hidden tabs never count.
pub viewing_newest :
    (now : Time) (t : Tracker)
    → let (u, s) = snapshot now t in
      let newest = newest_visible none u.clients in
      (s.viewing ≡ option_beat newest)
      × All (λ e. e.1.beat.visible ≡ true → e.1.last_seen ≤ seen_at newest) u.clients
unfolding snapshot
viewing_newest now t = (refl, newest_upper none (prune now t).clients)
