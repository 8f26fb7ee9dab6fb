-- ===== src/Monitor/Schedule/Deferral.antt =====
-- When no inference starts (internal/monitor/efficiency.go).
use kamacu.Common.{◌+◌, ◌≤◌, ◌<◌, ◌≡◌, Bool, true, false, ◌||◌, Time, arith, ltb, is_nil}
use kamacu.Observation.{Snapshot}
use kamacu.Monitor.Schedule.{
  Watch, Recognizers, Reason, nothing, typing, generation, note_typing, start_attempt, is_blocked,
  is_typing, inference_schedule, typing_debounce, generation_fallback,
}

-- The reasons for which `tick` starts a worker.
abbrev pub starts : Reason → Bool
starts nothing = false
starts typing = false
starts generation = false
starts _ = true

module _ (k : Recognizers) where
  -- While a worker runs, on a screen that is too large or empty, and before a retry is due, no
  -- inference starts.
  pub blocked_starts_none :
      (stale : Bool) (s : Snapshot) (now : Time) (w : Watch)
      → (w.busy || (s.unsupported_size || (is_nil s.screen || ltb now w.retry_after))) ≡ true
      → inference_schedule k stale s now w ≡ nothing
  unfolding inference_schedule is_blocked
  blocked_starts_none stale s now w h = rw h

  -- Right behind noted input that is not in the future, within a second of it, no inference
  -- starts.
  pub typing_starts_none :
      (stale : Bool) (s seen : Snapshot) (noted now : Time) (w : Watch)
      → 0 < seen.input_at
      → seen.input_at ≤ noted
      → now < seen.input_at + typing_debounce
      → starts (inference_schedule k stale s now (note_typing seen noted w)) ≡ false
  unfolding inference_schedule is_typing note_typing
  typing_starts_none stale s seen noted now w set past soon = ground arith

  -- An attempt takes all reasons with it: behind its start, at a time that is not zero, no inference
  -- starts within half a minute, while the screen is not stale, whatever was urgent, pending or
  -- deferred before.
  pub attempt_consumes :
      (s : Snapshot) (started now : Time) (w : Watch)
      → 0 < started
      → now < started + generation_fallback
      → starts (inference_schedule k false s now (start_attempt started w)) ≡ false
  unfolding inference_schedule start_attempt is_blocked is_typing
  attempt_consumes s started now w set soon = ground arith
