-- ===== src/Observation/History.antt =====
-- The pruning loop of `capture` (internal/observation/terminal.go): what stays is the newest part
-- of the history that fits, and each line of the screen gets one time.
use mathlib.Core.List.{reverse-cons}
use kamacu.Common.{
  ℕ, zero, suc, ◌+◌, ◌-◌, ◌≤◌, ◌≡◌, refl, sym, ap, ◌⊎◌, inl, inr, List, [], ◌∷◌, ◌++◌, reverse,
  arith, Time, Text, byte_len, length, take, drop, length-drop, length-reverse, Bool-cases,
  Option-cases, ltb,
}
use kamacu.Observation.{Snapshot, kept, screen_lines, pop_time, stamp}

abbrev pub total_bytes : List Text → ℕ
total_bytes [] = 0
total_bytes (h ∷ hs) = byte_len h + total_bytes hs

pub record IsBounded (s : Snapshot) : Type 0 where
  pub times_aligned : length s.history_at ≡ length s.history
  pub lines_aligned : length s.history_line_times ≡ length s.history
  pub few : length s.history ≤ 8
  pub small : (length s.history ≡ 0) ⊎ (byte_len s.screen + total_bytes s.history ≤ 24000)
  pub stamped : (length s.screen ≡ 0) ⊎ (length s.line_times ≡ length (screen_lines s.screen))

total_bytes-append : (xs ys : List Text) → total_bytes (xs ++ ys) ≡ total_bytes xs + total_bytes ys
total_bytes-append [] ys = omega arith
total_bytes-append (x ∷ xs) ys = omega (arith, total_bytes-append xs ys)

take-append_le : (k : ℕ) (xs ys : List Text) → k ≤ length xs → take k (xs ++ ys) ≡ take k xs
take-append_le zero xs ys h = refl
take-append_le (suc k) [] ys h = absurd (omega arith)
take-append_le (suc k) (x ∷ xs) ys h = ap (◌∷◌ x) (take-append_le k xs ys (omega arith))

take_all : (k : ℕ) (xs : List Text) → length xs ≤ k → take k xs ≡ xs
take_all zero [] h = refl
take_all zero (x ∷ xs) h = absurd (omega arith)
take_all (suc k) [] h = refl
take_all (suc k) (x ∷ xs) h = ap (◌∷◌ x) (take_all k xs (omega arith))

total_bytes-reverse : (xs : List Text) → total_bytes (reverse xs) ≡ total_bytes xs
total_bytes-reverse [] = refl
total_bytes-reverse (x ∷ xs) = omega (
  arith,
  ap total_bytes (reverse-cons x xs),
  total_bytes-append (reverse xs) (x ∷ []),
  total_bytes-reverse xs,
)

-- The last k screens are the first k of the reversed history.
total_bytes-drop :
    (k : ℕ) (xs : List Text)
    → k ≤ length xs
    → total_bytes (drop (length xs - k) xs) ≡ total_bytes (take k (reverse xs))
total_bytes-drop zero [] h = refl
total_bytes-drop (suc k) [] h = absurd (omega arith)
total_bytes-drop k (x ∷ xs) h = elim (Bool-cases (ltb (length xs) k)) [
  | inl all ↦
      let e : suc (length xs) - k ≡ 0 = ground arith in
      rw (e, take_all k (reverse (x ∷ xs)) (ground (arith, length-reverse (x ∷ xs))))
        (sym (total_bytes-reverse (x ∷ xs)))
  | inr part ↦
      let e : suc (length xs) - k ≡ suc (length xs - k) = ground arith in
      rw
        (
          e,
          reverse-cons x xs,
          take-append_le k (reverse xs) (x ∷ []) (ground (arith, length-reverse xs)),
        )
        (total_bytes-drop k xs (ground arith))
]

pub kept-le-length : (total seen : ℕ) (hs : List Text) → kept total seen hs ≤ length hs
unfolding kept
kept-le-length total seen [] = omega arith
kept-le-length total seen (h ∷ hs) =
    ground (arith, kept-le-length (total + byte_len h) (suc seen) hs)

kept_few : (total seen : ℕ) (hs : List Text) → kept total seen hs ≤ 8 - seen
unfolding kept
kept_few total seen [] = omega arith
kept_few total seen (h ∷ hs) = ground (arith, kept_few (total + byte_len h) (suc seen) hs)

kept_small :
    (total seen : ℕ) (hs : List Text)
    → (kept total seen hs ≡ 0) ⊎ (total + total_bytes (take (kept total seen hs) hs) ≤ 24000)
unfolding kept
kept_small total seen [] = inl refl
kept_small total seen (h ∷ hs) = ground (arith, kept_small (total + byte_len h) (suc seen) hs)

pub length-stamp :
    (now : Time) (ls : List Text) (old : List (Text × Time)) → length (stamp now ls old) ≡ length ls
unfolding stamp
length-stamp now [] old = refl
length-stamp now (l ∷ ls) old = elim (Option-cases (pop_time l old)) [
  | inl e ↦ rw (e, stamp) (ap suc (length-stamp now ls old))
  | inr ((t, rest), e) ↦ rw (e, stamp) (ap suc (length-stamp now ls rest))
]

-- What `trim_history` leaves, over any slice that was aligned with the history.
pub length-drop_aligned {ℓ} :
    {A : Type ℓ} (n : ℕ) (xs : List A) (hs : List Text)
    → length xs ≡ length hs
    → length (drop n xs) ≡ length (drop n hs)
length-drop_aligned n xs hs e = omega (arith, length-drop n xs, length-drop n hs)

pub trim_few :
    (screen : Text) (hs : List Text)
    → length (drop (length hs - kept (byte_len screen) 0 (reverse hs)) hs) ≤ 8
trim_few screen hs = omega (
  arith,
  length-drop (length hs - kept (byte_len screen) 0 (reverse hs)) hs,
  kept_few (byte_len screen) 0 (reverse hs),
)

pub trim_small :
    (screen : Text) (hs : List Text)
    → let n = length hs - kept (byte_len screen) 0 (reverse hs) in
      (length (drop n hs) ≡ 0) ⊎ (byte_len screen + total_bytes (drop n hs) ≤ 24000)
trim_small screen hs =
    let fits = kept-le-length (byte_len screen) 0 (reverse hs) in
    let k : ℕ = kept (byte_len screen) 0 (reverse hs) in
    elim (kept_small (byte_len screen) 0 (reverse hs)) [
      | inl none_kept ↦ inl (omega (arith, length-drop (length hs - k) hs, none_kept))
      | inr within ↦
          inr
            (omega (arith, within, total_bytes-drop k hs (omega (arith, fits, length-reverse hs))))
    ]
