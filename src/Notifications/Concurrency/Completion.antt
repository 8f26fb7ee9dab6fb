-- ===== src/Notifications/Concurrency/Completion.antt =====
-- What a batch of internal/notifications/concurrency.go has done when it returns.
use kamacu.Common.{
  ℕ, zero, suc, ◌≤◌, ◌<◌, ◌≡◌, refl, Bool, true, false, none, some, List, [], ◌∷◌, ◌++◌, ltb,
  is_some, is_nil, min, any, all, Bool-cases, inl, inr, arith,
}
use kamacu.Notifications.Concurrency.{
  Slot, idle, done, Worker, head, checked, returned, busy, Pool, heads, start_pool, is_over, check,
  claim, return_from, Step, checks, claims, returns, cancels, Run, begin_, then_step, outcome_of,
}
use kamacu.Notifications.Concurrency.Invariant.{
  is_done, is_returned, is_busy, is_covered, Run-IsPool, start-IsPool,
}

heads-not_nil : (n : ℕ) → 1 ≤ n → is_nil (heads n) ≡ false
heads-not_nil zero h = absurd (omega arith)
heads-not_nil (suc n) h = refl

split_not_nil : (before after : List Worker) (w : Worker) → is_nil (before ++ w ∷ after) ≡ false
split_not_nil [] after w = refl
split_not_nil (v ∷ before) after w = refl

all-any :
    (f : Worker → Bool) (ws : List Worker) → all f ws ≡ true → is_nil ws ≡ false → any f ws ≡ true
all-any f [] h k = absurd (ground (arith, k))
all-any f (w ∷ ws) h k = ground (arith, h)

none_busy : (i : ℕ) (ws : List Worker) → all is_returned ws ≡ true → any (is_busy i) ws ≡ false
none_busy i [] h = refl
none_busy i (w ∷ ws) h = ground (arith, h, none_busy i ws)

is_done-eq : (v : Slot) → is_done v ≡ true → v ≡ done
is_done-eq v h = ground (arith, h)

module _ {E : Type 0} where
  -- A pool never loses its workers.
  Step-not_nil :
      {ctx_error : E} {count : ℕ} {p q : Pool E}
      → Step ctx_error count p q
      → is_nil p.workers ≡ false
      → is_nil q.workers ≡ false
  unfolding check claim return_from
  Step-not_nil {p = p} (checks before after e) h = elim (Bool-cases (is_over p)) [
    | inl o ↦ rw o (split_not_nil before after returned)
    | inr o ↦ rw o (split_not_nil before after checked)
  ]
  Step-not_nil {count = count} {p = p} (claims before after e) h =
      elim (Bool-cases (ltb p.next count)) [
        | inl o ↦ rw o (split_not_nil before after (busy p.next))
        | inr o ↦ rw o (split_not_nil before after returned)
      ]
  Step-not_nil (returns i none before after e) h = split_not_nil before after head
  Step-not_nil (returns i (some x) before after e) h = split_not_nil before after returned
  Step-not_nil (cancels e) h = h

  Run-not_nil :
      {ctx_error : E} {count : ℕ} {p : Pool E} {n : ℕ} {q : Pool E}
      → Run ctx_error count p n q
      → is_nil p.workers ≡ false
      → is_nil q.workers ≡ false
  Run-not_nil begin_ h = h
  Run-not_nil (then_step run s) h = Step-not_nil s (Run-not_nil run h)

  -- An index is taken once: a slot from `next` on was never touched, so that `fn` is called at most once
  -- for each, and only for the indices of the batch.
  pub Run-fresh :
      {n : ℕ} {p : Pool E} (ctx_error : E) (count limit : ℕ) (cancelled : Bool)
      → Run ctx_error count (start_pool count limit cancelled) n p
      → (i : ℕ) → p.next ≤ i
      → p.slots i ≡ idle
  Run-fresh ctx_error count limit cancelled run =
      (Run-IsPool run (start-IsPool count limit cancelled)).fresh

  -- Where at least one worker may run: whatever the interleaving, when every worker has returned and the
  -- batch reports no error, `fn` has returned without one for every index.
  pub batch_complete :
      {n : ℕ} {p : Pool E} (ctx_error : E) (count limit : ℕ) (cancelled : Bool) (i : ℕ)
      → 1 ≤ limit
      → Run ctx_error count (start_pool count limit cancelled) n p
      → all is_returned p.workers ≡ true
      → outcome_of ctx_error p ≡ none
      → i < count
      → p.slots i ≡ done
  batch_complete {n} {p} ctx_error count limit cancelled i some_limit run all_back quiet small =
      let inv = Run-IsPool run (start-IsPool count limit cancelled) in
      let there =
        Run-not_nil run (heads-not_nil (min count limit) (omega (arith, small, some_limit))) in
      let no_error : is_some p.error ≡ false = ground (arith, quiet) in
      let all_taken : count ≤ p.next =
        inv.used_up (all-any is_returned p.workers all_back there) no_error in
      let one : is_covered p i ≡ true = inv.covered i (omega (arith, all_taken, small)) small in
      is_done-eq (p.slots i) (ground (arith, one, no_error, none_busy i p.workers all_back))
