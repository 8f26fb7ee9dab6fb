-- ===== src/Notifications/Concurrency/Invariant.antt =====
-- The invariant of a batch of internal/notifications/concurrency.go.
use kamacu.Common.{
  ℕ, zero, suc, ◌≤◌, ◌<◌, ◌≡◌, refl, ap, ◌∙◌, Bool, true, false, ◌&&◌, ◌||◌, Option, none, some,
  List, [], ◌∷◌, ◌++◌, ltb, ◌==◌, ==_iff, is_some, min, any, Bool-cases, inl, inr, arith,
}
use kamacu.Notifications.Concurrency.{
  Slot, idle, done, failed, Worker, head, checked, returned, busy, Pool, heads, start_pool, is_over,
  check, claim, return_from, Step, checks, claims, returns, cancels, Run, begin_, then_step,
}

abbrev pub is_done : Slot → Bool
is_done done = true
is_done _ = false

abbrev pub is_failed : Slot → Bool
is_failed failed = true
is_failed _ = false

abbrev pub is_returned : Worker → Bool
is_returned returned = true
is_returned _ = false

abbrev pub is_busy : ℕ → Worker → Bool
is_busy i (busy j) = j == i
is_busy i _ = false

any-split :
    (p : Worker → Bool) (before after : List Worker) (w : Worker)
    → any p (before ++ w ∷ after) ≡ (any p before || p w || any p after)
any-split p [] after w = ground arith
any-split p (v ∷ before) after w = ground (arith, any-split p before after w)

heads-any : (f : Worker → Bool) (n : ℕ) → f head ≡ false → any f (heads n) ≡ false
heads-any f zero h = refl
heads-any f (suc n) h = ground (arith, h, heads-any f n h)

module _ {E : Type 0} where
  -- An index that was taken is done, has failed with an error kept, or is worked on.
  abbrev pub is_covered : Pool E → ℕ → Bool
  is_covered p i =
      is_done (p.slots i) || is_failed (p.slots i) && is_some p.error || any (is_busy i) p.workers

  pub record IsPool (count : ℕ) (p : Pool E) : Type 0 where
    pub fresh : (i : ℕ) → p.next ≤ i → p.slots i ≡ idle
    pub taken : (i : ℕ) → any (is_busy i) p.workers ≡ true → i < p.next
    pub covered : (i : ℕ) → i < p.next → i < count → is_covered p i ≡ true
    pub used_up : any is_returned p.workers ≡ true → is_some p.error ≡ false → count ≤ p.next

  -- The same workers but one, who was not in `fn` and is not.
  check-IsPool :
      (ctx_error : E) (count : ℕ) (before after : List Worker) (p : Pool E)
      → p.workers ≡ before ++ head ∷ after
      → IsPool count p
      → IsPool count (check ctx_error before after p)
  unfolding check
  check-IsPool ctx_error count before after p e inv =
      let was : (f : Worker → Bool) → any f p.workers ≡ (any f before || f head || any f after) =
        λ f. ap (any f) e ∙ any-split f before after head in
      elim (Bool-cases (is_over p)) [
        | inl o ↦ rw o (record {
          fresh = λ i k. inv.fresh i k;
          taken = λ i k.
              ground (
                arith,
                k,
                inv.taken i,
                was (is_busy i),
                any-split (is_busy i) before after returned,
              );
          covered = λ i k l. ground (
            arith,
            inv.covered i k l,
            was (is_busy i),
            any-split (is_busy i) before after returned,
          );
          used_up = λ k l. absurd (ground (arith, l));
        })
        | inr o ↦ rw o (record {
          fresh = λ i k. inv.fresh i k;
          taken = λ i k.
              ground (
                arith,
                k,
                inv.taken i,
                was (is_busy i),
                any-split (is_busy i) before after checked,
              );
          covered = λ i k l. ground (
            arith,
            inv.covered i k l,
            was (is_busy i),
            any-split (is_busy i) before after checked,
          );
          used_up = λ k l. ground (
            arith,
            inv.used_up,
            k,
            l,
            was is_returned,
            any-split is_returned before after checked,
          );
        })
      ]

  claim-IsPool :
      (count : ℕ) (before after : List Worker) (p : Pool E)
      → p.workers ≡ before ++ checked ∷ after
      → IsPool count p
      → IsPool count (claim count before after p)
  unfolding claim
  claim-IsPool count before after p e inv =
      let was : (f : Worker → Bool) → any f p.workers ≡ (any f before || f checked || any f after) =
        λ f. ap (any f) e ∙ any-split f before after checked in
      elim (Bool-cases (ltb p.next count)) [
        | inl o ↦ rw o (record {
          fresh = λ i k. ground (arith, inv.fresh i (omega (arith, k)), k);
          taken = λ i k. ground (
            arith,
            k,
            inv.taken i,
            was (is_busy i),
            any-split (is_busy i) before after (busy p.next),
          );
          covered = λ i k l. ground (
            arith,
            inv.covered i,
            k,
            l,
            was (is_busy i),
            any-split (is_busy i) before after (busy p.next),
          );
          used_up = λ k l. ground (
            arith,
            inv.used_up,
            k,
            l,
            was is_returned,
            any-split is_returned before after (busy p.next),
          );
        })
        | inr o ↦ rw o (record {
          fresh = λ i k. inv.fresh i (omega (arith, k));
          taken = λ i k.
              ground (
                arith,
                k,
                inv.taken i,
                was (is_busy i),
                any-split (is_busy i) before after returned,
              );
          covered = λ i k l. ground (
            arith,
            o,
            inv.covered i,
            k,
            l,
            was (is_busy i),
            any-split (is_busy i) before after returned,
          );
          used_up = λ k l. ground (arith, o);
        })
      ]

  return_from-IsPool :
      (count i : ℕ) (o : Option E) (before after : List Worker) (p : Pool E)
      → p.workers ≡ before ++ busy i ∷ after
      → IsPool count p
      → IsPool count (return_from i o before after p)
  unfolding return_from
  return_from-IsPool count i none before after p e inv =
      let was : (f : Worker → Bool)
          → any f p.workers ≡ (any f before || f (busy i) || any f after) =
        λ f. ap (any f) e ∙ any-split f before after (busy i) in
      let mine : i < p.next = inv.taken i (ground (arith, was (is_busy i), (==_iff i i).1 refl)) in
      record {
        fresh = λ j k. ground (arith, inv.fresh j k, mine, k);
        taken = λ j k.
            ground
              (arith, k, inv.taken j, was (is_busy j), any-split (is_busy j) before after head);
        covered = λ j k l.
            ground
              (arith, inv.covered j k l, was (is_busy j), any-split (is_busy j) before after head);
        used_up = λ k l.
            ground
              (arith, inv.used_up, k, l, was is_returned, any-split is_returned before after head);
      }
  return_from-IsPool count i (some x) before after p e inv =
      let was : (f : Worker → Bool)
          → any f p.workers ≡ (any f before || f (busy i) || any f after) =
        λ f. ap (any f) e ∙ any-split f before after (busy i) in
      let mine : i < p.next = inv.taken i (ground (arith, was (is_busy i), (==_iff i i).1 refl)) in
      record {
        fresh = λ j k. ground (arith, inv.fresh j k, mine, k);
        taken = λ j k.
            ground
              (arith, k, inv.taken j, was (is_busy j), any-split (is_busy j) before after returned);
        covered = λ j k l. ground (
          arith,
          inv.covered j k l,
          was (is_busy j),
          any-split (is_busy j) before after returned,
        );
        used_up = λ k l. absurd (ground (arith, l));
      }

  Step-IsPool :
      {ctx_error : E} {count : ℕ} {p q : Pool E}
      → Step ctx_error count p q
      → IsPool count p
      → IsPool count q
  Step-IsPool {ctx_error} {count} {p} (checks before after e) inv =
      check-IsPool ctx_error count before after p e inv
  Step-IsPool {ctx_error} {count} {p} (claims before after e) inv =
      claim-IsPool count before after p e inv
  Step-IsPool {ctx_error} {count} {p} (returns i o before after e) inv =
      return_from-IsPool count i o before after p e inv
  Step-IsPool {ctx_error} {count} {p} (cancels e) inv = record {
    fresh = inv.fresh;
    taken = inv.taken;
    covered = inv.covered;
    used_up = inv.used_up;
  }

  pub start-IsPool :
      (count limit : ℕ) (cancelled : Bool) → IsPool count (start_pool count limit cancelled)
  start-IsPool count limit cancelled = record {
    fresh = λ i k. refl;
    taken = λ i k. absurd (ground (arith, k, heads-any (is_busy i) (min count limit) refl));
    covered = λ i k l. absurd (omega (arith, k));
    used_up = λ k l. absurd (ground (arith, k, heads-any is_returned (min count limit) refl));
  }

  pub Run-IsPool :
      {ctx_error : E} {count : ℕ} {p : Pool E} {n : ℕ} {q : Pool E}
      → Run ctx_error count p n q
      → IsPool count p
      → IsPool count q
  Run-IsPool begin_ inv = inv
  Run-IsPool (then_step run s) inv = Step-IsPool s (Run-IsPool run inv)
