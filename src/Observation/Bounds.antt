-- ===== src/Observation/Bounds.antt =====
-- Every operation of internal/observation/terminal.go keeps the bounds of the history.
use kamacu.Common
use kamacu.Common.{
  ℕ, ◌+◌, ◌-◌, ◌≤◌, ◌≡◌, refl, inl, inr, Bool, true, false, ◌&&◌, not, List, [], ◌∷◌, ◌++◌, reverse,
  arith, if◌then◌else◌, ◌==◌, Time, Text, byte_len, length, take, drop, length-append, length-drop,
  Bool-cases, text_eq, is_nil,
}
use kamacu.Observation.{
  Renderer, Snapshot, Terminal, is_unsupported, kept, screen_lines, old_times, stamp, trim_history,
  remember, new, show, capture, feed_lines, feed, set_size, count_revision, resize, note_input,
}
use kamacu.Observation.History.{IsBounded, trim_few, trim_small, length-stamp, length-drop_aligned}

module _ {V : Type 0} (r : Renderer V) where
  show-IsBounded :
      (now : Time) (screen : Text) (s : Snapshot) → IsBounded s → IsBounded (show r now screen s)
  unfolding show remember trim_history
  show-IsBounded now screen s b = elim (Bool-cases (is_nil s.screen)) [
    | inl e ↦
        rw e (bounded s.history s.history_at s.history_line_times b.times_aligned b.lines_aligned)
    | inr e ↦ rw e (
        bounded (s.history ++ s.screen ∷ []) (s.history_at ++ s.at ∷ [])
          (s.history_line_times ++ s.line_times ∷ [])
          (omega (
            arith,
            b.times_aligned,
            length-append s.history_at (s.at ∷ []),
            length-append s.history (s.screen ∷ []),
          ))
          (omega (
            arith,
            b.lines_aligned,
            length-append s.history_line_times (s.line_times ∷ []),
            length-append s.history (s.screen ∷ []),
          )))
  ]
    where
      old : List (Text × Time)
      old = old_times (screen_lines s.screen) s.line_times

      bounded :
          (hs : List Text) (ts : List Time) (ls : List (List Time))
          → length ts ≡ length hs
          → length ls ≡ length hs
          → let n = length hs - kept (byte_len screen) 0 (reverse hs) in
            IsBounded (record s {
              history = drop n hs;
              history_at = drop n ts;
              history_line_times = drop n ls;
              line_times = stamp now (screen_lines screen) old;
              screen = screen;
              revision = Common.u64 (s.revision + 1);
              at = now;
              digest = r.digest screen;
            })
      bounded hs ts ls p q = record {
        times_aligned = length-drop_aligned _ ts hs p;
        lines_aligned = length-drop_aligned _ ls hs q;
        few = trim_few screen hs;
        small = trim_small screen hs;
        stamped = inr (length-stamp now (screen_lines screen) old);
      }

  capture-IsBounded :
      (now : Time) (t : Terminal V) → IsBounded t.snap → IsBounded (capture r now t).snap
  unfolding capture
  capture-IsBounded now t b =
      let screen = Common.trim_space (r.text t.vt) in
      elim (Bool-cases (text_eq screen t.snap.screen)) [
        | inl e ↦ rw e b
        | inr e ↦ rw e (show-IsBounded now screen t.snap b)
      ]

  either-IsBounded :
      (test : Bool) (t u : Terminal V)
      → IsBounded t.snap
      → IsBounded u.snap
      → IsBounded (if test then t else u).snap
  either-IsBounded true t u b c = b
  either-IsBounded false t u b c = c

  feed_lines-IsBounded :
      (now : Time) (pending bs : List ℕ) (t : Terminal V)
      → IsBounded t.snap
      → IsBounded (feed_lines r now pending bs t).snap
  unfolding feed_lines
  feed_lines-IsBounded now pending [] t b = elim (Bool-cases (is_nil pending)) [
    | inl e ↦ rw e b
    | inr e ↦ rw e (capture-IsBounded now (record t { vt = r.write t.vt pending }) b)
  ]
  feed_lines-IsBounded now pending (c ∷ bs) t b =
      let line = pending ++ c ∷ [] in
      let written = record t { vt = r.write t.vt line } in
      feed_lines-IsBounded now (if c == 10 then [] else line) bs
        (if c == 10 then capture r now written else t)
        (either-IsBounded (c == 10) (capture r now written) t (capture-IsBounded now written b) b)

  -- The other fields of a snapshot do not matter.
  set_output-IsBounded :
      (s : Snapshot) (at : Time) → IsBounded s → IsBounded (record s { output_at = at })
  set_output-IsBounded s at b = record {
    times_aligned = b.times_aligned;
    lines_aligned = b.lines_aligned;
    few = b.few;
    small = b.small;
    stamped = b.stamped;
  }

  pub feed-IsBounded :
      (now : Time) (p : List ℕ) (t : Terminal V)
      → IsBounded t.snap
      → IsBounded (feed r now p t).snap
  unfolding feed
  feed-IsBounded now p t b =
      let bytes = t.tail ++ p in
      let u = feed_lines r now [] (take (Common.complete_end bytes) bytes) t in
      let bu = feed_lines-IsBounded now [] (take (Common.complete_end bytes) bytes) t b in
      elim (Bool-cases (text_eq u.snap.screen t.snap.screen)) [
        | inl e ↦ rw e bu
        | inr e ↦ rw e (set_output-IsBounded u.snap u.snap.at bu)
      ]

  -- At most three bytes of an incomplete rune wait for the next chunk.
  pub feed-tail_short :
      (now : Time) (p : List ℕ) (t : Terminal V) → length (feed r now p t).tail ≤ 3
  unfolding feed
  feed-tail_short now p t =
      let bytes = t.tail ++ p in
      omega (arith, Common.complete_end_bounds bytes, length-drop (Common.complete_end bytes) bytes)

  fields-IsBounded :
      (s : Snapshot) (unsupported : Bool)
      → IsBounded s
      → IsBounded (record s { unsupported_size = unsupported })
  fields-IsBounded s unsupported b = record {
    times_aligned = b.times_aligned;
    lines_aligned = b.lines_aligned;
    few = b.few;
    small = b.small;
    stamped = b.stamped;
  }

  counted-IsBounded :
      (s : Snapshot) (n : ℕ) (at : Time)
      → IsBounded s
      → IsBounded (record s { revision = n; at = at })
  counted-IsBounded s n at b = record {
    times_aligned = b.times_aligned;
    lines_aligned = b.lines_aligned;
    few = b.few;
    small = b.small;
    stamped = b.stamped;
  }

  forgotten-IsBounded :
      (s : Snapshot)
      → IsBounded s
      → IsBounded (record s { history = []; history_at = []; history_line_times = [] })
  forgotten-IsBounded s b = record {
    times_aligned = refl;
    lines_aligned = refl;
    few = omega arith;
    small = inl refl;
    stamped = b.stamped;
  }

  set_size-IsBounded :
      (cols rows : ℕ) (t : Terminal V) → IsBounded t.snap → IsBounded (set_size r cols rows t).snap
  unfolding set_size
  set_size-IsBounded cols rows t b =
      let unsupported = is_unsupported cols rows in
      let plain = fields-IsBounded t.snap unsupported b in
      elim (Bool-cases (t.snap.unsupported_size && not unsupported)) [
        | inl e ↦
            rw e (forgotten-IsBounded (record t.snap { unsupported_size = unsupported }) plain)
        | inr e ↦ rw e plain
      ]

  count_revision-IsBounded :
      (now : Time) (before : ℕ) (t : Terminal V)
      → IsBounded t.snap
      → IsBounded (count_revision r now before t).snap
  unfolding count_revision
  count_revision-IsBounded now before t b =
      either-IsBounded (t.snap.revision == before)
        (record t {
          snap = record t.snap { revision = Common.u64 (t.snap.revision + 1); at = now };
        })
        t (counted-IsBounded t.snap (Common.u64 (t.snap.revision + 1)) now b) b

  pub resize-IsBounded :
      (now : Time) (cols rows : ℕ) (t : Terminal V)
      → IsBounded t.snap
      → IsBounded (resize r now cols rows t).snap
  unfolding resize
  resize-IsBounded now cols rows t b =
      let sized = set_size r cols rows t in
      let u = count_revision r now t.snap.revision (capture r now sized) in
      either-IsBounded (t.cols == cols && t.rows == rows) t u b (
        count_revision-IsBounded now t.snap.revision (capture r now sized)
          (capture-IsBounded now sized (set_size-IsBounded cols rows t b)))

  pub note_input-IsBounded :
      (now : Time) (t : Terminal V) → IsBounded t.snap → IsBounded (note_input now t).snap
  unfolding note_input
  note_input-IsBounded now t b = record {
    times_aligned = b.times_aligned;
    lines_aligned = b.lines_aligned;
    few = b.few;
    small = b.small;
    stamped = b.stamped;
  }

  pub new-IsBounded : (cols rows : ℕ) → IsBounded (new r cols rows).snap
  unfolding new
  new-IsBounded cols rows = record {
    times_aligned = refl;
    lines_aligned = refl;
    few = omega arith;
    small = inl refl;
    stamped = inl refl;
  }
