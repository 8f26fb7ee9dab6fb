-- ===== src/Notifications/Concurrency.antt =====
-- `parallelNotifications` of internal/notifications/concurrency.go: the steps of its workers in any
-- interleaving. `errgroup` keeps the first error and cancels the context of the group by it, which the
-- parent's cancellation does too. A worker's call of `fn` begins and ends; what it does is its slot.
pub mod Invariant
pub mod Completion
pub mod Bound
use kamacu.Common.{
  ℕ, zero, suc, ◌+◌, ◌≡◌, Bool, true, false, not, ◌&&◌, ◌||◌, Option, none, some, List, [], ◌∷◌,
  ◌++◌, if◌then◌else◌, ltb, ◌==◌, is_some, min,
}

pub data Slot : Type 0 where
  idle running done failed : Slot

-- At the head of the loop, behind `ctx.Err`, in `fn` for an index, or gone.
pub data Worker : Type 0 where
  head checked returned : Worker
  busy : ℕ → Worker

pub record Pool (E : Type 0) : Type 0 where
  pub next : ℕ
  pub slots : ℕ → Slot
  pub workers : List Worker
  pub cancelled : Bool
  pub error : Option E

abbrev pub put_slot : ℕ → Slot → (ℕ → Slot) → ℕ → Slot
put_slot i v slots j = if j == i then v else slots j

abbrev pub heads : ℕ → List Worker
heads zero = []
heads (suc n) = head ∷ heads n

module _ {E : Type 0} where
  -- `for range min(count, limit)`.
  abbrev pub start_pool : ℕ → ℕ → Bool → Pool E
  start_pool count limit cancelled = record {
    next = 0;
    slots = λ i. idle;
    workers = heads (min count limit);
    cancelled = cancelled;
    error = none;
  }

  -- `ctx.Err` of the group.
  abbrev pub is_over : Pool E → Bool
  is_over p = p.cancelled || is_some p.error

  abbrev pub first_error : Option E → E → Option E
  first_error none e = some e
  first_error (some d) e = some d

  -- The worker between `before` and `after` reads the context.
  unfoldable pub check : E → List Worker → List Worker → Pool E → Pool E
  check ctx_error before after p =
      if is_over p
      then record p { workers = before ++ returned ∷ after; error = first_error p.error ctx_error }
      else record p { workers = before ++ checked ∷ after }

  -- It takes the next index, and calls `fn` or is done.
  unfoldable pub claim : ℕ → List Worker → List Worker → Pool E → Pool E
  claim count before after p =
      if ltb p.next count
      then record p {
        next = p.next + 1;
        slots = put_slot p.next running p.slots;
        workers = before ++ busy p.next ∷ after;
      }
      else record p { next = p.next + 1; workers = before ++ returned ∷ after }

  -- `fn` returns.
  unfoldable pub return_from : ℕ → Option E → List Worker → List Worker → Pool E → Pool E
  return_from i none before after p = record p {
    slots = put_slot i done p.slots;
    workers = before ++ head ∷ after;
  }
  return_from i (some e) before after p = record p {
    slots = put_slot i failed p.slots;
    workers = before ++ returned ∷ after;
    error = first_error p.error e;
  }

  abbrev pub cancel : Pool E → Pool E
  cancel p = record p { cancelled = true }

  -- Some worker goes on, or the parent is cancelled.
  pub data Step (ctx_error : E) (count : ℕ) (p : Pool E) : Pool E → Type 0 where
    checks :
        (before after : List Worker)
        → p.workers ≡ before ++ head ∷ after
        → Step ctx_error count p (check ctx_error before after p)
    claims :
        (before after : List Worker)
        → p.workers ≡ before ++ checked ∷ after
        → Step ctx_error count p (claim count before after p)
    returns :
        (i : ℕ) (o : Option E) (before after : List Worker)
        → p.workers ≡ before ++ busy i ∷ after
        → Step ctx_error count p (return_from i o before after p)
    cancels : p.cancelled ≡ false → Step ctx_error count p (cancel p)

  -- So many steps, from one pool to another.
  pub data Run (ctx_error : E) (count : ℕ) (p : Pool E) : ℕ → Pool E → Type 0 where
    begin_ : Run ctx_error count p 0 p
    then_step :
        {n : ℕ} {q r : Pool E}
        → Run ctx_error count p n q
        → Step ctx_error count q r
        → Run ctx_error count p (suc n) r

  -- What the call returns behind `Wait`.
  abbrev pub outcome_of : E → Pool E → Option E
  outcome_of ctx_error p = elim p.error [
    | some e ↦ some e
    | none ↦ if p.cancelled then some ctx_error else none
  ]
