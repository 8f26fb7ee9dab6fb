-- ===== src/Observation/Runs.antt =====
-- A terminal through any sequence of calls (internal/observation/terminal.go).
use kamacu.Common.{ℕ, List, [], ◌∷◌, Time}
use kamacu.Observation.{Renderer, Terminal, new, feed, resize, note_input}
use kamacu.Observation.History.{IsBounded}
use kamacu.Observation.Bounds.{
  feed-IsBounded, resize-IsBounded, note_input-IsBounded, new-IsBounded,
}

-- What the owner of a terminal may do with it.
pub data Event : Type 0 where
  fed : Time → List ℕ → Event
  resized : Time → ℕ → ℕ → Event
  typed : Time → Event

module _ {V : Type 0} (r : Renderer V) where
  unfoldable pub run : Terminal V → List Event → Terminal V
  run t [] = t
  run t (fed now p ∷ es) = run (feed r now p t) es
  run t (resized now cols rows ∷ es) = run (resize r now cols rows t) es
  run t (typed now ∷ es) = run (note_input now t) es

  run-IsBounded : (t : Terminal V) (es : List Event) → IsBounded t.snap → IsBounded (run t es).snap
  unfolding run
  run-IsBounded t [] b = b
  run-IsBounded t (fed now p ∷ es) b =
      run-IsBounded (feed r now p t) es (feed-IsBounded r now p t b)
  run-IsBounded t (resized now cols rows ∷ es) b =
      run-IsBounded (resize r now cols rows t) es (resize-IsBounded r now cols rows t b)
  run-IsBounded t (typed now ∷ es) b =
      run-IsBounded (note_input now t) es (note_input-IsBounded r now t b)

  -- Whatever a terminal has been fed since it was made, in whatever order with resizes and input,
  -- its history holds at most eight screens and, with the visible screen, at most 24000 bytes
  -- unless it is empty; its parallel slices have the history's length, and the visible lines each
  -- have a time unless the screen is empty.
  pub history-IsBounded :
      (cols rows : ℕ) (es : List Event) → IsBounded (run (new r cols rows) es).snap
  history-IsBounded cols rows es = run-IsBounded (new r cols rows) es (new-IsBounded r cols rows)
