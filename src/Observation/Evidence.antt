-- ===== src/Observation/Evidence.antt =====
-- `EvidenceAt`, `ContainsEvidence` and `excerptAt` of internal/observation/terminal.go: where an
-- excerpt is on a screen, and when its lines were first there.
use kamacu.Common.{
  ℕ, suc, ◌+◌, ◌≤◌, ◌≡◌, refl, ap, inl, inr, Bool, true, false, List, [], ◌∷◌, reverse, arith, Time,
  Text, Option, none, some, length, any, take, drop, contains, has_prefix, trim_space, is_nil,
  if◌then◌else◌, ltb, leb, ◌==◌, get_elem?, All, Option-cases, subst, text_eq, text_eq_self,
}
use kamacu.Observation.{Snapshot, old_times, pop_time, stamp}

-- `strings.LastIndex`, in characters: the last position where the excerpt stands.
abbrev pub last_index : Text → Text → Option ℕ
last_index [] e = if has_prefix [] e then some 0 else none
last_index (c ∷ s) e = elim (last_index s e) [
  | some i ↦ some (suc i)
  | none ↦ if has_prefix (c ∷ s) e then some 0 else none
]

-- `strings.Count(s, "\n")`.
abbrev pub newlines : Text → ℕ
newlines [] = 0
newlines (c ∷ s) = (if c == 10 then 1 else 0) + newlines s

-- The latest of some times, not before `at`.
abbrev pub latest : Time → List Time → Time
latest at [] = at
latest at (t ∷ ts) = latest (if ltb at t then t else at) ts

unfoldable pub excerpt_at : Text → List Time → Time → Text → Time
excerpt_at screen times fallback excerpt = elim (last_index screen excerpt) [
  | none ↦ fallback
  | some start ↦
      let first = newlines (take start screen) in
      let last = first + newlines excerpt in
      if leb (length times) last then fallback else elim (get_elem? times first) [
        | none ↦ fallback
        | some at ↦ latest at (take (suc (newlines excerpt)) (drop first times))
      ]
]

-- The newest remembered screen that holds the excerpt, with the times that stand beside it.
-- The three slices are given newest first; `IsBounded` of History.antt has them of one length.
abbrev pub search_history : Text → Time → List Text → List Time → List (List Time) → Time
search_history excerpt at [] ats lines = at
search_history excerpt at (h ∷ hs) [] lines =
    if contains h excerpt then excerpt_at h [] at excerpt else search_history excerpt at hs [] lines
search_history excerpt at (h ∷ hs) (t ∷ ts) [] =
    if contains h excerpt then excerpt_at h [] t excerpt else search_history excerpt at hs ts []
search_history excerpt at (h ∷ hs) (t ∷ ts) (l ∷ ls) =
    if contains h excerpt then excerpt_at h l t excerpt else search_history excerpt at hs ts ls

unfoldable pub evidence_at : Snapshot → Text → Time
unfolding excerpt_at
evidence_at s excerpt =
    if is_nil excerpt
    then s.at
    else if contains s.screen excerpt
    then excerpt_at s.screen s.line_times s.at excerpt
    else search_history excerpt s.at (reverse s.history) (reverse s.history_at)
        (reverse s.history_line_times)

unfoldable pub contains_evidence : Snapshot → Text → Bool
contains_evidence s excerpt =
    if is_nil (trim_space excerpt)
    then false
    else if contains s.screen excerpt
    then true
    else any (λ h. contains h excerpt) s.history

-- Captured again, a screen with the same lines, each with its time, keeps the time of each of
-- them: a repaint that changes no line makes no line look new.
pub stamp_unchanged :
    (now : Time) (ls : List Text) (ts : List Time)
    → length ts ≡ length ls
    → stamp now ls (old_times ls ts) ≡ ts
unfolding stamp
stamp_unchanged now [] [] h = refl
stamp_unchanged now [] (t ∷ ts) h = absurd (omega arith)
stamp_unchanged now (l ∷ ls) [] h = absurd (omega arith)
stamp_unchanged now (l ∷ ls) (t ∷ ts) h =
    rw (text_eq_self l, stamp) (ap (◌∷◌ t) (stamp_unchanged now ls ts (omega arith)))

-- What is popped, and what stays, is no later than `n`.
abbrev Popped : ℕ → Option (Time × List (Text × Time)) → Type 0
Popped n none = Unit
Popped n (some (t, rest)) = (t ≤ n) × All (λ e. e.1 ≤ n) rest

pop_time-Popped :
    (l : Text) (old : List (Text × Time)) (n : ℕ)
    → All (λ e. e.1 ≤ n) old
    → Popped n (pop_time l old)
pop_time-Popped l [] n k = tt
pop_time-Popped l ((j, u) ∷ m) n k = go (text_eq j l) (pop_time l m) (pop_time-Popped l m n k.1)
  where
    go :
        (b : Bool) (o : Option (Time × List (Text × Time)))
        → Popped n o
        → Popped n (
            if b
            then some (u, m)
            else elim o [ none ↦ none | some (v, m') ↦ some (v, (j, u) ∷ m') ])
    go true o p = k
    go false none p = tt
    go false (some (v, r)) p = (p.0, (k.0, p.1))

-- No line's time lies in the future: each is the capture's, or that of an old line.
pub stamp_bounded :
    (now : Time) (ls : List Text) (old : List (Text × Time))
    → All (λ e. e.1 ≤ now) old
    → All (λ t. t ≤ now) (stamp now ls old)
unfolding stamp
stamp_bounded now [] old k = tt
stamp_bounded now (l ∷ ls) old k = elim (Option-cases (pop_time l old)) [
  | inl e ↦ rw (e, stamp) (omega arith, stamp_bounded now ls old k)
  | inr ((t, rest), e) ↦
      rw (e, stamp)
        (let p : Popped now (some (t, rest)) = subst (Popped now) e (pop_time-Popped l old now k) in
          (p.0, stamp_bounded now ls rest p.1))
]
