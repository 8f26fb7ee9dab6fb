-- ===== src/Reaper/Stops.antt =====
-- Whose sessions the first pass of internal/reaper/reaper.go stops.
use kamacu.Common.{
  ℕ, ◌-◌, ◌/◌, ◌<◌, ◌≡◌, refl, true, Option, some, List, [], ◌∷◌, Text, str_eq, Bool-cases,
  Option-cases, inl, inr, ◌⊎◌, arith, All, keep,
}
use kamacu.Cleanup.{Task, Machine, Host}
use kamacu.Reaper.{
  Ttl, invalid, disabled, lasts, parse_done_session_ttl, is_expired, reap_once, stop_expired,
  is_running_task,
}

Ttl-cases : (t : Ttl) → (t ≡ invalid) ⊎ ((t ≡ disabled) ⊎ ((d : ℕ) × (t ≡ lasts d)))
Ttl-cases invalid = inl refl
Ttl-cases disabled = inr (inl refl)
Ttl-cases (lasts d) = inr (inr (d, refl))

-- The task is done, and has been since before the cutoff.
abbrev pub IsLongDone : ℕ → Task → Type 0
IsLongDone cutoff t =
    (str_eq t.status "done" ≡ true) × ((at_ : ℕ) × (t.done_at ≡ some at_) × (at_ < cutoff))

is_expired-IsLongDone : (cutoff : ℕ) (t : Task) → is_expired cutoff t ≡ true → IsLongDone cutoff t
is_expired-IsLongDone cutoff t h = elim (Option-cases t.done_at) [
  | inl e ↦ absurd (ground (arith, h, e))
  | inr (at_, e) ↦ (ground (arith, h), (at_, e, ground (arith, h, e)))
]

-- The first list is the second with some of its elements left out.
pub data SubList {A : Type 0} : List A → List A → Type 0 where
  ends : SubList [] []
  takes : {x : A} {xs ys : List A} → SubList xs ys → SubList (x ∷ xs) (x ∷ ys)
  skips : {x : A} {xs ys : List A} → SubList xs ys → SubList xs (x ∷ ys)

module _ {G : Type 0} (m : Machine G) where
  -- The tasks whose sessions are stopped, in order.
  abbrev pub stop_each : List Task → G → G
  stop_each [] g = g
  stop_each (t ∷ ts) g = stop_each ts (m.stop_all_for_task g t.id)

  -- Those of the list that are expired and have a session that runs.
  stop_expired_each :
      (cutoff : ℕ) (ts : List Task) (g : G)
      → (stopped : List Task) × SubList stopped ts
        × All (IsLongDone cutoff) stopped
        × (stop_expired m (keep (is_expired cutoff) ts) g ≡ stop_each stopped g)
  stop_expired_each cutoff [] g = ([], ends, tt, refl)
  stop_expired_each cutoff (t ∷ ts) g = elim (Bool-cases (is_expired cutoff t)) [
    | inr h ↦
        let (stopped, sub, all_, e) = stop_expired_each cutoff ts g in
        (stopped, skips sub, all_, ground (arith, h, e))
    | inl h ↦ elim (Bool-cases (is_running_task m t.id g)) [
      | inl r ↦
          let (stopped, sub, all_, e) = stop_expired_each cutoff ts (m.stop_all_for_task g t.id) in
          (
            t ∷ stopped,
            takes sub,
            (is_expired-IsLongDone cutoff t h, all_),
            ground (arith, h, r, e),
          )
      | inr r ↦
          let (stopped, sub, all_, e) = stop_expired_each cutoff ts g in
          (stopped, skips sub, all_, ground (arith, h, r, e))
    ]
  ]

  -- Where the setting lasts for `ttl`, the first pass does nothing but stop the sessions of some tasks
  -- of the table, in its order and each row at most once, that are done since before `ttl` ago, to the
  -- millisecond; any other setting stops none.
  pub reaped_only_expired :
      (parse_duration : Text → Option ℕ) (raw : Text) (now : ℕ) (s : Host G)
      → (reap_once m parse_duration (some raw) now s ≡ s)
        ⊎ ((ttl : ℕ) × (parse_done_session_ttl parse_duration raw ≡ lasts ttl)
            × (stopped : List Task) × SubList stopped s.tasks
            × All (IsLongDone ((now - ttl) / 1000000)) stopped
            × (reap_once m parse_duration (some raw) now s
                ≡ record s { machine = stop_each stopped s.machine }))
  unfolding reap_once
  reaped_only_expired parse_duration raw now s =
      elim (Ttl-cases (parse_done_session_ttl parse_duration raw)) [
        | inl e ↦ inl (ground (arith, e))
        | inr (inl e) ↦ inl (ground (arith, e))
        | inr (inr (ttl, e)) ↦
            let (stopped, sub, all_, each) =
              stop_expired_each ((now - ttl) / 1000000) s.tasks s.machine in
            inr (ttl, e, stopped, sub, all_, ground (arith, e, each))
      ]
