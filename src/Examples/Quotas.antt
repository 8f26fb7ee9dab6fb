-- ===== src/Examples/Quotas.antt =====
-- Runs of internal/quota/quota.go.
use kamacu.Common.{ℕ, ◌≡◌, refl, true, false, none, some, List, [], ◌∷◌, arith}
use kamacu.Quota.{
  Window, Service, Credentials, no_error, failed, served, fetch_failed, ok_body, begin, finish,
  result, is_gated,
}
use kamacu.Quota.Caching.{Call, begins, finishes, IsSound, run, run-IsSound}
use kamacu.Quota.Throttle.{is_fetch, attempts_spaced}
use kamacu.Quota.Accounts.{late_answer_crosses_accounts}

abbrev empty : Service ℕ
empty = record {
  cached = none;
  token_fp = "";
  fetched_at = 0;
  last_attempt = 0;
  backoff_until = 0;
  failures = 0;
  last_err = no_error;
  inflight = false;
}

abbrev first_account : Credentials
first_account = record { fp = "a"; expires_at = 900000000000 }

abbrev second_account : Credentials
second_account = record { fp = "b"; expires_at = 900000000000 }

abbrev window : Window ℕ
window = record { key = "five_hour"; label = "5h"; utilization = 12; resets_at = none }

abbrev calls : List (Call ℕ)
calls =
    begins (some first_account) false 100000000000
    ∷ finishes 101000000000 (ok_body (window ∷ []))
    ∷ begins (some first_account) true 120000000000
    ∷ finishes 121000000000 fetch_failed
    ∷ []

empty-IsSound : IsSound empty
empty-IsSound = record { dropped = λ h. refl; clean = λ h. refl; counted = λ h. refl }

run-IsSound_example : IsSound (run empty calls)
run-IsSound_example = run-IsSound empty calls empty-IsSound

abbrev failing : Service ℕ
failing = record empty {
  cached = some (window ∷ []);
  fetched_at = 5;
  failures = 1;
  last_err = failed;
}

attempts_spaced_example :
    is_fetch
      (begin (some second_account) true 105000000000 (
        run (begin (some first_account) false 100000000000 empty).0 (
          begins (some second_account) true 103000000000
          ∷ finishes 104000000000 fetch_failed
          ∷ []))).1
    ≡ false
unfolding begin is_gated
attempts_spaced_example =
    attempts_spaced empty (some first_account) (some second_account) false true 100000000000
      105000000000
      (begins (some second_account) true 103000000000 ∷ finishes 104000000000 fetch_failed ∷ [])
      refl (omega arith, (tt, tt)) (omega arith)

abbrev asking_now : Service ℕ
asking_now = record empty { inflight = true; token_fp = "a" }

abbrev of_first : Service ℕ
of_first = record failing { token_fp = "a" }

late_answer_crosses_accounts_example :
    let asking = (begin (some first_account) false 100000000000 empty).0 in
    let waiting = (begin (some second_account) false 101000000000 asking).0 in
    let answered = (finish 102000000000 (ok_body (window ∷ [])) waiting).0 in
    ((begin (some second_account) false 103000000000 answered).1 ≡ served (result answered))
    × ((result answered).windows ≡ some (window ∷ []))
unfolding begin is_gated
late_answer_crosses_accounts_example =
    late_answer_crosses_accounts first_account second_account false 100000000000 101000000000
      102000000000 103000000000 empty window [] refl refl (omega arith) (omega arith) (omega arith)
