-- ===== src/Quota/Caching.antt =====
-- What a `Get` may serve (internal/quota/quota.go).
use kamacu.Common.{
  ℕ, ◌≤◌, ◌<◌, ◌≡◌, Bool, true, Option, none, some, List, [], ◌∷◌, Time, arith, is_some, ◌↔◌, ◌≢◌,
  ◌^◌,
}
use kamacu.Quota.{
  Service, no_error, Credentials, Outcome, max_failures, min_backoff, result, adopt, begin, finish,
  parse_retry_after,
}

-- One half of some client's `Get`.
pub data Call (U : Type 0) : Type 0 where
  begins : Option Credentials → Bool → Time → Call U
  finishes : Time → Outcome U → Call U

module _ {U : Type 0} where
  unfoldable pub step : Service U → Call U → Service U
  step s (begins creds force now) = (begin creds force now s).0
  step s (finishes now outcome) = (finish now outcome s).0

  unfoldable pub run : Service U → List (Call U) → Service U
  run s [] = s
  run s (c ∷ cs) = run (step s c) cs

  -- Three failures in a row leave no windows, and windows were fetched at some time.
  pub record IsSound (s : Service U) : Type 0 where
    pub dropped : max_failures ≤ s.failures → s.cached ≡ none
    pub clean : s.last_err ≡ no_error → s.failures ≡ 0
    pub counted : s.failures ≡ 0 → s.last_err ≡ no_error

  step-IsSound : (s : Service U) (c : Call U) → IsSound s → IsSound (step s c)
  unfolding step begin finish adopt
  step-IsSound s (begins none force now) v = v
  step-IsSound s (begins (some creds) force now) v = ground arith
  step-IsSound s (finishes now outcome) v = ground arith

  -- From a state in which no windows are kept from the third failure in a row on, and an error is
  -- reported exactly while failures are counted, any interleaving of the halves of concurrent
  -- `Get`s leads to such a state.
  pub run-IsSound : (s : Service U) (cs : List (Call U)) → IsSound s → IsSound (run s cs)
  unfolding run
  run-IsSound s [] v = v
  run-IsSound s (c ∷ cs) v = run-IsSound (step s c) cs (step-IsSound s c v)

  -- Only windows that an error stands beside are marked stale; `fetched_at` stands beside windows
  -- and beside nothing else.
  pub result_fields :
      (s : Service U)
      → let r = result s in
        ((r.stale ≡ true) ↔ ((s.last_err ≢ no_error) × (is_some r.windows ≡ true)))
        × (is_some r.fetched_at ≡ is_some r.windows)
  unfolding result
  result_fields s = (ground arith, ground arith)

-- A backoff lasts half a minute at least, whatever the header says, and is never negative.
pub backoff_bounds :
    (secs : Option ℕ) → (min_backoff ≤ parse_retry_after secs) × (parse_retry_after secs < 2 ^ 63)
unfolding parse_retry_after
backoff_bounds secs = ground arith
