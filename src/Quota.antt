-- ===== src/Quota.antt =====
-- internal/quota/quota.go: the demand-driven cache of the upstream usage windows. A `Get` is two
-- steps, before and behind the HTTP call, during which the mutex is free. The credentials file,
-- the digest of the token, the clock and the upstream's answer are arguments.
pub mod Caching
pub mod Throttle
pub mod Accounts
use kamacu.Common.{
  ℕ, zero, suc, ◌+◌, ◌-◌, ◌*◌, ◌%◌, ◌^◌, Bool, true, false, not, ◌&&◌, ◌||◌, Option, none, some,
  List, [], ◌∷◌, String, str_eq, Time, if◌then◌else◌, ltb, leb, ◌==◌, is_some,
}

-- A window; what the upstream reports of it stays closed.
pub record Window (U : Type 0) : Type 0 where
  pub key : String
  pub label : String
  pub utilization : U
  pub resets_at : Option String

-- `lastErr`; `no_error` is the empty string.
pub data LastError : Type 0 where
  no_error auth_expired failed : LastError

-- `Result.State`.
pub data State : Type 0 where
  no_credentials ok state_auth_expired state_error : State

pub record Result (U : Type 0) : Type 0 where
  pub state : State
  pub windows : Option (List (Window U))
  pub fetched_at : Option Time
  pub stale : Bool

-- A nil slice is `none`.
pub record Service (U : Type 0) : Type 0 where
  pub cached : Option (List (Window U))
  pub token_fp : String
  pub fetched_at : Time
  pub last_attempt : Time
  pub backoff_until : Time
  pub failures : ℕ
  pub last_err : LastError
  pub inflight : Bool

abbrev pub cache_ttl : ℕ
cache_ttl = 60000000000

abbrev pub attempt_floor : ℕ
attempt_floor = 10000000000

abbrev pub min_backoff : ℕ
min_backoff = 30000000000

abbrev pub max_failures : ℕ
max_failures = 3

-- What `readCredentials` gives: the digest of the token, and the token's expiry.
pub record Credentials : Type 0 where
  pub fp : String
  pub expires_at : Time

-- What came back from upstream: `ok_body` holds the windows of a body that decodes, in order.
pub data Outcome (U : Type 0) : Type 0 where
  fetch_failed bad_body unauthorized other_status : Outcome U
  ok_body : List (Window U) → Outcome U
  too_many : ℕ → Outcome U

pub data Reply (U : Type 0) : Type 0 where
  served : Result U → Reply U
  fetching : Reply U

abbrev pub is_error : LastError → Bool
is_error no_error = false
is_error _ = true

abbrev pub state_of : LastError → State
state_of no_error = ok
state_of auth_expired = state_auth_expired
state_of failed = state_error

module _ {U : Type 0} where
  abbrev pub new : Service U
  new = record {
    cached = none;
    token_fp = "";
    fetched_at = 0;
    last_attempt = 0;
    backoff_until = 0;
    failures = 0;
    last_err = no_error;
    inflight = false;
  }

  unfoldable pub record_failure : LastError → Service U → Service U
  record_failure state s = record s {
    failures = s.failures + 1;
    last_err = state;
    cached = if leb max_failures (s.failures + 1) then none else s.cached;
  }

  unfoldable pub result : Service U → Result U
  result s = record {
    state = state_of s.last_err;
    windows = s.cached;
    fetched_at = if is_some s.cached then some s.fetched_at else none;
    stale = is_error s.last_err && is_some s.cached;
  }

  -- Step 2: another token empties the cache.
  unfoldable pub adopt : String → Service U → Service U
  adopt fp s = if str_eq fp s.token_fp then s else record s {
    cached = none;
    fetched_at = 0;
    failures = 0;
    last_err = no_error;
    token_fp = fp;
  }

  -- Step 4: the gates under which the cache is served.
  unfoldable pub is_gated : Bool → Time → Service U → Bool
  is_gated force now s =
      (not force && (is_some s.cached && ltb (now - s.fetched_at) cache_ttl))
      || (ltb now s.backoff_until || (ltb (now - s.last_attempt) attempt_floor || s.inflight))

  -- `Get` up to the HTTP call.
  unfoldable pub begin : Option Credentials → Bool → Time → Service U → Service U × Reply U
  unfolding adopt
  begin none force now s = (
    s,
    served (record { state = no_credentials; windows = none; fetched_at = none; stale = false }),
  )
  begin (some creds) force now s =
      let t = adopt creds.fp s in
      let expired = record_failure auth_expired t in
      if ltb creds.expires_at now
      then (expired, served (result expired))
      else if is_gated force now t
      then (t, served (result t))
      else (record t { inflight = true; last_attempt = now }, fetching)

  abbrev pub to_slice : List (Window U) → Option (List (Window U))
  to_slice [] = none
  to_slice (w ∷ ws) = some (w ∷ ws)

  -- The switch over the answer.
  unfoldable pub settle : Time → Outcome U → Service U → Service U
  unfolding record_failure
  settle now fetch_failed s = record_failure failed s
  settle now bad_body s = record_failure failed s
  settle now (ok_body ws) s = record s {
    cached = to_slice ws;
    fetched_at = now;
    failures = 0;
    last_err = no_error;
  }
  settle now unauthorized s = record_failure auth_expired s
  settle now (too_many retry_after) s =
      record_failure failed (record s { backoff_until = now + retry_after })
  settle now other_status s = record_failure failed s

  -- `Get` from the HTTP call's return.
  unfoldable pub finish : Time → Outcome U → Service U → Service U × Result U
  unfolding settle result
  finish now outcome s = let t = settle now outcome (record s { inflight = false }) in (t, result t)

-- `parseRetryAfter`, of the header's number if it is one; the product wraps at 64 bits, and a
-- negative duration is below the minimum.
unfoldable pub parse_retry_after : Option ℕ → ℕ
parse_retry_after none = min_backoff
parse_retry_after (some secs) =
    let d = secs * 1000000000 % 2 ^ 64 in
    if leb (2 ^ 63) d || ltb d min_backoff then min_backoff else d
