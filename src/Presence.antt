-- ===== src/Presence.antt =====
-- internal/presence/presence.go: which session the user looks at, from the heartbeats of browser
-- tabs. Every method runs under the mutex with one reading of the clock, which is an argument.
pub mod Window
pub mod Replay
pub mod Focus
use Prim.Native.Nat.{compare as compare_nat}
use Prim.Native.String.{compare as compare_text}
use kamacu.Common.{
  ℕ, zero, suc, ◌+◌, ◌-◌, ◌/◌, Bool, true, false, not, ◌&&◌, ◌||◌, Option, none, some, List, [],
  ◌∷◌, ◌++◌, String, str_eq, Time, second, if◌then◌else◌, ltb, leb, ◌==◌, any, keep, map, length,
  drop, lookup, insert, string_eq,
}

abbrev pub active_window : ℕ
active_window = 15000000000

abbrev pub typing_window : ℕ
typing_window = 10000000000

pub record Beat : Type 0 where
  pub sequence : ℕ
  pub client_id : String
  pub route : String
  pub project_id : ℕ
  pub task_id : ℕ
  pub session_id : String
  pub visible : Bool

pub record ClientState : Type 0 where
  pub beat : Beat
  pub last_seen : Time

pub record Interval : Type 0 where
  pub session : String
  pub start : Time
  pub end : Time

pub record Tracker : Type 0 where
  pub history : List Interval
  pub clients : List (String × ClientState)
  pub typing : List (String × Time)
  pub last_present_at : Time

-- `Viewing` and `ClientView` repeat the beat; a view has the time beside it.
pub record Snapshot : Type 0 where
  pub active : Bool
  pub away_for_seconds : ℕ
  pub last_active_at : Time
  pub viewing : Option Beat
  pub clients : List ClientState
  pub typing_in : List String

abbrev pub new : Tracker
new = record { history = []; clients = []; typing = []; last_present_at = 0 }

abbrev pub history_size : ℕ
history_size = 2048

-- The newest 2048 intervals.
unfoldable pub trim : List Interval → List Interval
trim h = drop (length h - history_size) h

-- A client that shows a session leaves an interval behind.
abbrev pub shows_session : Beat → Bool
shows_session b = b.visible && not (str_eq b.session_id "")

abbrev pub earlier_of : Time → Time → Time
earlier_of a b = if ltb b a then b else a

-- What a client showed until now, or until its window ran out.
abbrev pub shown_until : Time → ClientState → Interval
shown_until now c = record {
  session = c.beat.session_id;
  start = c.last_seen;
  end = earlier_of now (c.last_seen + active_window);
}

-- A beat that is not newer than the client's last one.
abbrev pub is_replay : Beat → Option ClientState → Bool
is_replay b none = false
is_replay b (some c) = ltb 0 c.beat.sequence && leb b.sequence c.beat.sequence

abbrev pub left_behind : Time → Option ClientState → List Interval → List Interval
left_behind now none h = h
left_behind now (some c) h = if shows_session c.beat then trim (h ++ shown_until now c ∷ []) else h

unfoldable pub heartbeat : Time → Beat → Tracker → Tracker × Bool
unfolding trim
heartbeat now b t =
    let old = lookup b.client_id t.clients in
    let next = record t {
      history = left_behind now old t.history;
      clients = insert b.client_id (record { beat = b; last_seen = now }) t.clients;
      last_present_at = if b.visible then now else t.last_present_at;
    } in
    if is_replay b old then (t, false) else (next, true)

unfoldable pub note_user_input : Time → String → Tracker → Tracker
note_user_input now id t = record t { typing = insert id now t.typing }

abbrev pub is_fresh : Time → ClientState → Bool
is_fresh now c = leb (now - c.last_seen) active_window

-- The intervals of the clients whose window ran out.
unfoldable pub expired_intervals : Time → List (String × ClientState) → List Interval
expired_intervals now [] = []
expired_intervals now ((id, c) ∷ cs) =
    let rest = expired_intervals now cs in
    let gone : Interval = record {
      session = c.beat.session_id;
      start = c.last_seen;
      end = c.last_seen + active_window;
    } in
    if not (is_fresh now c) && shows_session c.beat then gone ∷ rest else rest

unfoldable pub prune : Time → Tracker → Tracker
prune now t = record t {
  history = trim (t.history ++ expired_intervals now t.clients);
  clients = keep (λ e. is_fresh now e.1) t.clients;
  typing = keep (λ e. leb (now - e.1) typing_window) t.typing;
}

abbrev pub better : Option ClientState → ClientState → Option ClientState
better none c = if c.beat.visible then some c else none
better (some b) c = if c.beat.visible && ltb b.last_seen c.last_seen then some c else some b

-- The visible client that was seen last; of several the first in the map's order.
unfoldable pub newest_visible :
    Option ClientState → List (String × ClientState) → Option ClientState
newest_visible best [] = best
newest_visible best ((id, c) ∷ cs) = newest_visible (better best c) cs

-- `sort.Slice` by `LastSeen`, newest first.
unfoldable pub insert_newest : ClientState → List ClientState → List ClientState
insert_newest c [] = c ∷ []
insert_newest c (d ∷ ds) =
    if ltb c.last_seen d.last_seen then d ∷ insert_newest c ds else c ∷ d ∷ ds

unfoldable pub newest_first : List ClientState → List ClientState
newest_first [] = []
newest_first (c ∷ cs) = insert_newest c (newest_first cs)

abbrev pub text_lt : String → String → Bool
text_lt a b = elim (compare_text a b) [ Prim.Native.Nat.Ordering.lt ↦ true | _ ↦ false ]

unfoldable pub insert_text : String → List String → List String
insert_text a [] = a ∷ []
insert_text a (b ∷ bs) = if text_lt b a then b ∷ insert_text a bs else a ∷ b ∷ bs

unfoldable pub sort_texts : List String → List String
sort_texts [] = []
sort_texts (a ∷ as') = insert_text a (sort_texts as')

abbrev pub option_beat : Option ClientState → Option Beat
option_beat none = none
option_beat (some c) = some c.beat

abbrev pub has_client : Option ClientState → Bool
has_client none = false
has_client (some c) = true

unfoldable pub snapshot : Time → Tracker → Tracker × Snapshot
snapshot now t =
    let u = prune now t in
    let newest = newest_visible none u.clients in
    let away = not (has_client newest) && not (u.last_present_at == 0) in
    (
      u,
      record {
        active = has_client newest;
        away_for_seconds = if away then (now - u.last_present_at) / second else 0;
        last_active_at = u.last_present_at;
        viewing = option_beat newest;
        clients = newest_first (map (λ e. e.1) u.clients);
        typing_in = sort_texts (map (λ e. e.0) u.typing);
      },
    )

abbrev pub views : String → Time → ClientState → Bool
views id at c =
    c.beat.visible
    && (str_eq c.beat.session_id id && (leb c.last_seen at && leb (at - c.last_seen) active_window))

abbrev pub covers : String → Time → Interval → Bool
covers id at v = str_eq v.session id && (leb v.start at && ltb at v.end)

unfoldable pub viewing_at : String → Time → Tracker → Bool
viewing_at id at t = any (λ e. views id at e.1) t.clients || any (covers id at) t.history

-- `WhileAway`: the callback's error, or nil where it is not called.
unfoldable pub while_away {ℓ} : {E : Type ℓ} → Time → String → E → E → Tracker → E
while_away now id nil publish t =
    let looks = λ (c : ClientState).
      c.beat.visible && (str_eq c.beat.session_id id && leb (now - c.last_seen) active_window) in
    if any (λ e. looks e.1) t.clients then nil else publish
