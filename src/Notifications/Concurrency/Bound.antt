-- ===== src/Notifications/Concurrency/Bound.antt =====
-- Batches of internal/notifications/concurrency.go end.
use kamacu.Common.{
  ℕ, zero, suc, ◌+◌, ◌-◌, ◌*◌, ◌≤◌, ◌<◌, ◌≡◌, refl, ap, ◌∙◌, Bool, true, false, none, some, List,
  [], ◌∷◌, ◌++◌, if◌then◌else◌, ltb, min, all, Bool-cases, inl, inr, ◌⊎◌, arith,
}
use kamacu.Notifications.Concurrency.{
  Worker, head, checked, returned, busy, Pool, heads, start_pool, is_over, check, claim,
  return_from, Step, checks, claims, returns, cancels, Run, begin_, then_step,
}
use kamacu.Notifications.Concurrency.Invariant.{is_returned}

-- What a worker may still do on its index, and no more than four steps for every index to come.
abbrev weight : Worker → ℕ
weight head = 3
weight checked = 2
weight (busy i) = 4
weight returned = 0

abbrev weights : List Worker → ℕ
weights [] = 0
weights (w ∷ ws) = weight w + weights ws

weights-split :
    (before after : List Worker) (w : Worker)
    → weights (before ++ w ∷ after) ≡ weights before + weight w + weights after
weights-split [] after w = omega arith
weights-split (v ∷ before) after w = omega (arith, weights-split before after w)

weights-heads : (n : ℕ) → weights (heads n) ≡ 3 * n
weights-heads zero = refl
weights-heads (suc n) = omega (arith, weights-heads n)

-- A worker that has not returned, with those before and behind it.
working :
    (ws : List Worker)
    → (all is_returned ws ≡ true)
      ⊎ ((before : List Worker) × (w : Worker) × (after : List Worker) × (ws ≡ before ++ w ∷ after)
          × (is_returned w ≡ false))
working [] = inl refl
working (w ∷ ws) = elim (Bool-cases (is_returned w)) [
  | inr h ↦ inr ([], w, ws, refl, h)
  | inl h ↦ elim (working ws) [
    | inl k ↦ inl (ground (arith, h, k))
    | inr (before, v, after, e, k) ↦ inr (w ∷ before, v, after, ap (λ r. w ∷ r) e, k)
  ]
]

module _ {E : Type 0} where
  abbrev measure : ℕ → Pool E → ℕ
  measure count p = 4 * (count - p.next) + weights p.workers + (if p.cancelled then 0 else 1)

  Step-measure :
      {ctx_error : E} {count : ℕ} {p q : Pool E}
      → Step ctx_error count p q
      → measure count q < measure count p
  unfolding check claim return_from
  Step-measure {ctx_error} {count} {p} (checks before after e) =
      let was = ap weights e ∙ weights-split before after head in
      elim (Bool-cases (is_over p)) [
        | inl o ↦ rw o (omega (arith, was, weights-split before after returned))
        | inr o ↦ rw o (omega (arith, was, weights-split before after checked))
      ]
  Step-measure {ctx_error} {count} {p} (claims before after e) =
      let was = ap weights e ∙ weights-split before after checked in
      elim (Bool-cases (ltb p.next count)) [
        | inl o ↦ rw o (ground (arith, o, was, weights-split before after (busy p.next)))
        | inr o ↦ rw o (ground (arith, o, was, weights-split before after returned))
      ]
  Step-measure {ctx_error} {count} {p} (returns i none before after e) =
      omega
        (arith, ap weights e ∙ weights-split before after (busy i), weights-split before after head)
  Step-measure {ctx_error} {count} {p} (returns i (some x) before after e) = omega (
    arith,
    ap weights e ∙ weights-split before after (busy i),
    weights-split before after returned,
  )
  Step-measure {ctx_error} {count} {p} (cancels e) = ground (arith, e)

  Run-measure :
      {ctx_error : E} {count : ℕ} {p : Pool E} {n : ℕ} {q : Pool E}
      → Run ctx_error count p n q
      → n + measure count q ≤ measure count p
  Run-measure begin_ = omega arith
  Run-measure (then_step run s) = omega (arith, Run-measure run, Step-measure s)

  goes_on :
      (ctx_error : E) (count : ℕ) (p : Pool E) (before : List Worker) (w : Worker)
      (after : List Worker)
      → p.workers ≡ before ++ w ∷ after
      → is_returned w ≡ false
      → (q : Pool E) × Step ctx_error count p q
  goes_on ctx_error count p before head after e h = (_, checks before after e)
  goes_on ctx_error count p before checked after e h = (_, claims before after e)
  goes_on ctx_error count p before (busy i) after e h = (_, returns i none before after e)
  goes_on ctx_error count p before returned after e h = absurd (ground (arith, h))

  -- Every batch ends, if `fn` always returns: no interleaving has more steps than four for an index, three for a worker
  -- and the cancellation, and as long as a worker has not returned there is a step to take.
  pub batch_ends :
      {n : ℕ} {p : Pool E} (ctx_error : E) (count limit : ℕ) (cancelled : Bool)
      → Run ctx_error count (start_pool count limit cancelled) n p
      → (n ≤ 4 * count + 3 * min count limit + 1)
        × ((all is_returned p.workers ≡ true) ⊎ ((q : Pool E) × Step ctx_error count p q))
  batch_ends {n} {p} ctx_error count limit cancelled run = (
    ground (arith, Run-measure run, weights-heads (min count limit)),
    elim (working p.workers) [
      | inl h ↦ inl h
      | inr (before, w, after, e, h) ↦ inr (goes_on ctx_error count p before w after e h)
    ],
  )
