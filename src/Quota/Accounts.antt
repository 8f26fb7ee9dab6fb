-- ===== src/Quota/Accounts.antt =====
-- Whose windows a `Get` serves (internal/quota/quota.go).
use kamacu.Common.{
  ◌+◌, ◌≤◌, ◌<◌, ◌≡◌, refl, Bool, true, false, none, some, List, ◌∷◌, str_eq, str_eq_iff, Time,
  arith, is_some,
}
use kamacu.Quota.{
  Window, Service, Credentials, ok_body, Reply, served, fetching, cache_ttl, begin, finish, adopt,
  is_gated, settle, record_failure, result,
}

module _ {U : Type 0} where
  -- A reply that shows no window.
  abbrev pub IsBlank : Reply U → Type 0
  IsBlank (served r) = r.windows ≡ none
  IsBlank fetching = Unit

  -- Under a token that is not the one of the cache no window is shown: the cache is emptied first.
  pub other_account-IsBlank :
      (creds : Credentials) (force : Bool) (now : Time) (s : Service U)
      → str_eq creds.fp s.token_fp ≡ false
      → IsBlank (begin (some creds) force now s).1
        × ((begin (some creds) force now s).0.token_fp ≡ creds.fp)
        × ((begin (some creds) force now s).0.cached ≡ none)
  unfolding begin adopt record_failure result
  other_account-IsBlank creds force now s other = ground arith

  fetch_token :
      (a : Credentials) (force : Bool) (now : Time) (s : Service U)
      → (begin (some a) force now s).1 ≡ fetching
      → ((begin (some a) force now s).0.inflight ≡ true)
        × ((begin (some a) force now s).0.token_fp ≡ a.fp)
  unfolding begin adopt
  fetch_token a force now s e = ground (arith, str_eq_iff a.fp s.token_fp)

  wait_token :
      (b : Credentials) (now : Time) (s : Service U)
      → s.inflight ≡ true
      → now ≤ b.expires_at
      → (begin (some b) false now s).0.token_fp ≡ b.fp
  unfolding begin adopt is_gated
  wait_token b now s busy live = ground (arith, str_eq_iff b.fp s.token_fp)

  serve_fresh :
      (b : Credentials) (now : Time) (s : Service U)
      → s.token_fp ≡ b.fp
      → now ≤ b.expires_at
      → is_some s.cached ≡ true
      → now < s.fetched_at + cache_ttl
      → (begin (some b) false now s).1 ≡ served (result s)
  unfolding begin adopt is_gated
  serve_fresh b now s own live cached fresh = ground (arith, str_eq_iff b.fp s.token_fp)

  -- Nothing ties an answer to the token that it was asked with. Where the token changes from `a`
  -- to `b` while a fetch is in flight, the windows of `a` that then arrive are served under `b`,
  -- as long as `b` is not expired, by any `Get` that does not force a refresh within the next
  -- minute.
  pub late_answer_crosses_accounts :
      (a b : Credentials) (force : Bool) (asked switched arrived read : Time) (s : Service U)
      (w : Window U) (ws : List (Window U))
      → str_eq b.fp a.fp ≡ false
      → (begin (some a) force asked s).1 ≡ fetching
      → switched ≤ b.expires_at
      → read ≤ b.expires_at
      → read < arrived + cache_ttl
      → let asking = (begin (some a) force asked s).0 in
        let waiting = (begin (some b) false switched asking).0 in
        let answered = (finish arrived (ok_body (w ∷ ws)) waiting).0 in
        ((begin (some b) false read answered).1 ≡ served (result answered))
        × ((result answered).windows ≡ some (w ∷ ws))
  late_answer_crosses_accounts a b force asked switched arrived read s w ws differ fetched live
        live' soon =
      let asking = (begin (some a) force asked s).0 in
      let waiting = (begin (some b) false switched asking).0 in
      let answered = (finish arrived (ok_body (w ∷ ws)) waiting).0 in
      let token = wait_token b switched asking (fetch_token a force asked s fetched).0 live in
      unfold finish settle result in (serve_fresh b read answered token live' refl soon, refl)
