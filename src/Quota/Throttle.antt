-- ===== src/Quota/Throttle.antt =====
-- How often the upstream is asked (internal/quota/quota.go).
use kamacu.Common.{
  ◌+◌, ◌<◌, ◌≡◌, refl, Bool, true, false, Option, none, some, List, [], ◌∷◌, Time, arith, All, ◌∙◌,
}
use kamacu.Quota.{
  Service, Credentials, Reply, served, fetching, attempt_floor, begin, finish, adopt, is_gated,
}
use kamacu.Quota.Caching.{Call, begins, finishes, step, run}

module _ {U : Type 0} where
  -- The call begins before `t`, where it begins a `Get`.
  abbrev pub IsBefore : Time → Call U → Type 0
  IsBefore t (begins creds force now) = now < t
  IsBefore t (finishes now outcome) = Unit

  abbrev pub is_fetch : Reply U → Bool
  is_fetch (served r) = false
  is_fetch fetching = true

  -- Within ten seconds of an attempt nothing is fetched, and the attempt stays the last one.
  step_floor :
      (s : Service U) (c : Call U)
      → IsBefore (s.last_attempt + attempt_floor) c
      → (step s c).last_attempt ≡ s.last_attempt
  unfolding step begin finish adopt is_gated
  step_floor s (begins none force now) h = refl
  step_floor s (begins (some creds) force now) h = ground arith
  step_floor s (finishes now outcome) h = ground arith

  run_floor :
      (s : Service U) (cs : List (Call U))
      → All (IsBefore (s.last_attempt + attempt_floor)) cs
      → (run s cs).last_attempt ≡ s.last_attempt
  unfolding run
  run_floor s [] h = refl
  run_floor s (c ∷ cs) h = let e = step_floor s c h.0 in run_floor (step s c) cs (rw e h.1) ∙ e

  begin_floor :
      (s : Service U) (creds : Option Credentials) (force : Bool) (now : Time)
      → now < s.last_attempt + attempt_floor
      → is_fetch (begin creds force now s).1 ≡ false
  unfolding begin is_gated adopt
  begin_floor s none force now h = refl
  begin_floor s (some creds) force now h = ground arith

  fetch_last :
      (s : Service U) (creds : Option Credentials) (force : Bool) (now : Time)
      → (begin creds force now s).1 ≡ fetching
      → (begin creds force now s).0.last_attempt ≡ now
  unfolding begin
  fetch_last s none force now h = absurd (ground arith)
  fetch_last s (some creds) force now h = ground arith

  -- The upstream is asked once in ten seconds at most: behind an attempt at `now`, however the
  -- calls until then interleave, finish, fail or change accounts, and even where a refresh is
  -- forced, a `Get` that begins less than ten seconds later serves what is there.
  pub attempts_spaced :
      (s : Service U) (creds later_creds : Option Credentials) (force later_force : Bool)
      (now later : Time) (cs : List (Call U))
      → (begin creds force now s).1 ≡ fetching
      → All (IsBefore (now + attempt_floor)) cs
      → later < now + attempt_floor
      → is_fetch (begin later_creds later_force later (run (begin creds force now s).0 cs)).1
        ≡ false
  attempts_spaced s creds later_creds force later_force now later cs fetched before soon =
      let t = (begin creds force now s).0 in
      let last = fetch_last s creds force now fetched in
      let kept = run_floor t cs (rw last before) in
      begin_floor (run t cs) later_creds later_force later (omega (arith, last, kept))

  -- One fetch at a time: while one is in flight a `Get` serves what is there.
  pub inflight_dedups :
      (s : Service U) (creds : Option Credentials) (force : Bool) (now : Time)
      → s.inflight ≡ true
      → is_fetch (begin creds force now s).1 ≡ false
  unfolding begin is_gated adopt
  inflight_dedups s none force now h = refl
  inflight_dedups s (some creds) force now h = ground arith
