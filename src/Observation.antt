-- ===== src/Observation.antt =====
-- internal/observation/terminal.go: the rendered screen of a session and its bounded history.
-- The terminal emulator (vt10x) and the SHA-256 digest are a parameter; the clock is an argument,
-- read once in each call.
pub mod History
pub mod Bounds
pub mod Runs
pub mod Evidence
use mathlib.Core.List.{flatten}
use kamacu.Common
use kamacu.Common.{
  ℕ, zero, suc, ◌+◌, ◌-◌, ◌≤◌, ◌<◌, min, max, ◌≡◌, refl, ◌&&◌, ◌||◌, not, Bool, true, false, Option,
  none, some, List, [], ◌∷◌, ◌++◌, arith, if◌then◌else◌, ltb, leb, ◌==◌, Time, u64, Text, text_eq,
  byte_len, trim_space, trim_right, split, is_nil, length, take, drop, complete_end,
}

pub record Renderer (V : Type 0) : Type 0 where
  pub fresh : ℕ → ℕ → V
  pub write : V → List ℕ → V
  pub text : V → Text
  pub resize : V → ℕ → ℕ → V
  pub digest : Text → Text

pub record Snapshot : Type 0 where
  pub output_at : Time
  pub input_at : Time
  pub unsupported_size : Bool
  pub revision : ℕ
  pub input : ℕ
  pub screen : Text
  pub history_at : List Time
  pub history_line_times : List (List Time)
  pub history : List Text
  pub at : Time
  pub line_times : List Time
  pub digest : Text

pub record Terminal (V : Type 0) : Type 0 where
  pub cols : ℕ
  pub rows : ℕ
  pub vt : V
  pub tail : List ℕ
  pub snap : Snapshot

abbrev pub empty_snapshot : Snapshot
empty_snapshot = record {
  output_at = 0;
  input_at = 0;
  unsupported_size = false;
  revision = 0;
  input = 0;
  screen = [];
  history_at = [];
  history_line_times = [];
  history = [];
  at = 0;
  line_times = [];
  digest = [];
}

-- The geometry that is rendered, and whether it is another one than was asked for. A Go int may be
-- negative; the sizes that reach here are widths of 16 bits.
abbrev pub size : ℕ → ℕ → ℕ × ℕ
size cols rows = (max 1 (min cols 300), max 1 (min rows 100))

abbrev pub is_unsupported : ℕ → ℕ → Bool
is_unsupported cols rows = not ((size cols rows).0 == cols && (size cols rows).1 == rows)

-- How many of the newest screens stay: `total` bytes and `seen` screens are counted already.
unfoldable pub kept : ℕ → ℕ → List Text → ℕ
kept total seen [] = 0
kept total seen (h ∷ older) =
    let more = suc (kept (total + byte_len h) (suc seen) older) in
    if ltb 24000 (total + byte_len h) || ltb 8 (suc seen) then 0 else more

-- `strings.TrimRight(line, " \t")`.
abbrev pub trim_line : Text → Text
trim_line = trim_right (λ c. c == 32 || c == 9)

unfoldable pub screen_lines : Text → List Text
unfolding split
screen_lines s = Common.map trim_line (split 10 s)

-- The times of the lines of the old screen, oldest line first, for each that has one.
abbrev pub old_times : List Text → List Time → List (Text × Time)
old_times [] ts = []
old_times (l ∷ ls) [] = []
old_times (l ∷ ls) (t ∷ ts) = (l, t) ∷ old_times ls ts

-- The front of the queue that the map holds under a line, and the map without it.
abbrev pub pop_time : Text → List (Text × Time) → Option (Time × List (Text × Time))
pop_time l [] = none
pop_time l ((k, t) ∷ m) =
    let rest = pop_time l m in
    if text_eq k l
    then some (t, m)
    else elim rest [ none ↦ none | some (u, m') ↦ some (u, (k, t) ∷ m') ]

-- A line that the old screen showed keeps its time.
unfoldable pub stamp : Time → List Text → List (Text × Time) → List Time
stamp now [] old = []
stamp now (l ∷ ls) old = elim (pop_time l old) [
  | none ↦ now ∷ stamp now ls old
  | some (t, rest) ↦ t ∷ stamp now ls rest
]

-- `History`, `HistoryAt` and `HistoryLineTimes` are cut alike.
unfoldable pub trim_history : Text → Snapshot → Snapshot
unfolding kept
trim_history screen s =
    let n = length s.history - kept (byte_len screen) 0 (Common.reverse s.history) in
    record s {
      history = drop n s.history;
      history_at = drop n s.history_at;
      history_line_times = drop n s.history_line_times;
    }

unfoldable pub remember : Snapshot → Snapshot
remember s = if is_nil s.screen then s else record s {
  history = s.history ++ s.screen ∷ [];
  history_at = s.history_at ++ s.at ∷ [];
  history_line_times = s.history_line_times ++ s.line_times ∷ [];
}

module _ {V : Type 0} (r : Renderer V) where
  unfoldable pub new : ℕ → ℕ → Terminal V
  new cols rows = record {
    cols = cols;
    rows = rows;
    vt = r.fresh (size cols rows).0 (size cols rows).1;
    tail = [];
    snap = record empty_snapshot { unsupported_size = is_unsupported cols rows };
  }

  -- The snapshot behind a screen that is not the one shown before.
  unfoldable pub show : Time → Text → Snapshot → Snapshot
  unfolding trim_history remember screen_lines stamp
  show now screen s =
      let old = old_times (screen_lines s.screen) s.line_times in
      record (trim_history screen (remember s)) {
        line_times = stamp now (screen_lines screen) old;
        screen = screen;
        revision = u64 (s.revision + 1);
        at = now;
        digest = r.digest screen;
      }

  unfoldable pub capture : Time → Terminal V → Terminal V
  capture now t =
      let screen = trim_space (r.text t.vt) in
      if text_eq screen t.snap.screen then t else record t { snap = show now screen t.snap }

  -- The complete bytes, written line by line with a capture behind each newline, and behind what
  -- is left at the end. `pending` are the bytes since the last newline.
  unfoldable pub feed_lines : Time → List ℕ → List ℕ → Terminal V → Terminal V
  feed_lines now pending [] t =
      if is_nil pending then t else capture now (record t { vt = r.write t.vt pending })
  feed_lines now pending (b ∷ bs) t =
      let line = pending ++ b ∷ [] in
      let shown = capture now (record t { vt = r.write t.vt line }) in
      feed_lines now (if b == 10 then [] else line) bs (if b == 10 then shown else t)

  unfoldable pub feed : Time → List ℕ → Terminal V → Terminal V
  feed now p t =
      let bytes = t.tail ++ p in
      let end = complete_end bytes in
      let u = feed_lines now [] (take end bytes) t in
      let snap =
        if text_eq u.snap.screen t.snap.screen
        then u.snap
        else record u.snap { output_at = u.snap.at } in
      record u { snap = snap; tail = drop end bytes }

  abbrev forget_history : Snapshot → Snapshot
  forget_history s = record s { history = []; history_at = []; history_line_times = [] }

  -- The emulator at the new geometry. Bytes that were rendered at the wrong one are dropped.
  unfoldable pub set_size : ℕ → ℕ → Terminal V → Terminal V
  set_size cols rows t =
      let unsupported = is_unsupported cols rows in
      let snap = record t.snap { unsupported_size = unsupported } in
      let (c, l) = size cols rows in
      if t.snap.unsupported_size && not unsupported
      then record t { cols = cols; rows = rows; vt = r.fresh c l; snap = forget_history snap }
      else record t { cols = cols; rows = rows; vt = r.resize t.vt c l; snap = snap }

  -- A resize counts as a revision also where the screen stays.
  unfoldable pub count_revision : Time → ℕ → Terminal V → Terminal V
  count_revision now before u =
      if u.snap.revision == before
      then record u { snap = record u.snap { revision = u64 (u.snap.revision + 1); at = now } }
      else u

  unfoldable pub resize : Time → ℕ → ℕ → Terminal V → Terminal V
  resize now cols rows t =
      let u = count_revision now t.snap.revision (capture now (set_size cols rows t)) in
      if t.cols == cols && t.rows == rows then t else u

unfoldable pub note_input : {V : Type 0} → Time → Terminal V → Terminal V
note_input now t = record t {
  snap = record t.snap { input = u64 (t.snap.input + 1); input_at = now };
}
