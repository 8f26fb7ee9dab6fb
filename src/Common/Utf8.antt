-- ===== src/Common/Utf8.antt =====
-- `utf8.FullRune` and the size that `utf8.DecodeRune` reports, over bytes, and the loop that cuts
-- a chunk of terminal output behind its last complete rune (internal/observation/terminal.go and
-- internal/session/codex_status.go have the same loop).
use Prim.Native.Nat.{ℕ, zero, suc, ◌+◌, ◌≤◌, ◌<◌}
use mathlib.Core.Path.{◌≡◌}
use mathlib.Core.Bool.{Bool, true, false, ◌&&◌, ◌||◌}
use mathlib.Core.List.{List, [], ◌∷◌}
use mathlib.Core.Logic.{inl, inr}
use native.Mathlib.Omega.{arith}
use kamacu.Common.Tests.{if◌then◌else◌, ltb, leb, ◌==◌, Bool-cases}
use kamacu.Common.Lists.{length, drop, length-drop}

-- The length that a first byte announces; 1 for ASCII and for a byte that starts no rune.
announced : ℕ → ℕ
announced b =
    if ltb b 0xc2
    then 1
    else if ltb b 0xe0
    then 2
    else if ltb b 0xf0
    then 3
    else if ltb b 0xf5
    then 4
    else 1

-- The second bytes that Go accepts behind a first byte.
accepts : ℕ → ℕ → Bool
accepts b c =
    leb (if b == 0xe0 then 0xa0 else if b == 0xf0 then 0x90 else 0x80) c
    && leb c (if b == 0xed then 0x9f else if b == 0xf4 then 0x8f else 0xbf)

continues : ℕ → Bool
continues c = leb 0x80 c && leb c 0xbf

unfoldable pub full_rune : List ℕ → Bool
unfolding announced accepts continues
full_rune [] = false
full_rune (b ∷ []) = leb (announced b) 1
full_rune (b ∷ c ∷ []) = leb (announced b) 2 || not_accepted
  where
    not_accepted : Bool
    not_accepted = if accepts b c then false else true
full_rune (b ∷ c ∷ d ∷ []) = leb (announced b) 3 || bad
  where
    bad : Bool
    bad = if accepts b c then (if continues d then false else true) else true
full_rune (b ∷ c ∷ d ∷ e ∷ r) = true

unfoldable pub rune_size : List ℕ → ℕ
unfolding announced accepts continues
rune_size [] = 0
rune_size (b ∷ []) = 1
rune_size (b ∷ c ∷ []) = if announced b == 2 && accepts b c then 2 else 1
rune_size (b ∷ c ∷ d ∷ []) =
    if announced b == 2 && accepts b c
    then 2
    else if announced b == 3 && (accepts b c && continues d)
    then 3
    else 1
rune_size (b ∷ c ∷ d ∷ e ∷ r) =
    if announced b == 2 && accepts b c
    then 2
    else if announced b == 3 && (accepts b c && continues d)
    then 3
    else if announced b == 4 && (accepts b c && (continues d && continues e))
    then 4
    else 1

-- `for end < len(data) { if !FullRune(data[end:]) { break }; end += size }` on fuel.
runes_end : ℕ → List ℕ → ℕ
unfolding full_rune rune_size
runes_end zero d = 0
runes_end (suc fuel) d =
    let rest = rune_size d + runes_end fuel (drop (rune_size d) d) in
    if full_rune d then rest else 0

-- Where the loop stops: each round takes a byte at least, so the length is fuel enough.
unfoldable pub complete_end : List ℕ → ℕ
unfolding runes_end
complete_end d = runes_end (length d) d

rune_size_pos : (d : List ℕ) → full_rune d ≡ true → 0 < rune_size d
unfolding full_rune rune_size
rune_size_pos [] h = ground arith
rune_size_pos (b ∷ []) h = omega arith
rune_size_pos (b ∷ c ∷ []) h = ground arith
rune_size_pos (b ∷ c ∷ d ∷ []) h = ground arith
rune_size_pos (b ∷ c ∷ d ∷ e ∷ r) h = ground arith

rune_size-le-length : (d : List ℕ) → rune_size d ≤ length d
unfolding rune_size
rune_size-le-length [] = omega arith
rune_size-le-length (b ∷ []) = omega arith
rune_size-le-length (b ∷ c ∷ []) = ground arith
rune_size-le-length (b ∷ c ∷ d ∷ []) = ground arith
rune_size-le-length (b ∷ c ∷ d ∷ e ∷ r) = ground arith

full_rune_of_length : (d : List ℕ) → full_rune d ≡ false → length d ≤ 3
unfolding full_rune
full_rune_of_length [] h = omega arith
full_rune_of_length (b ∷ []) h = omega arith
full_rune_of_length (b ∷ c ∷ []) h = omega arith
full_rune_of_length (b ∷ c ∷ d ∷ []) h = omega arith
full_rune_of_length (b ∷ c ∷ d ∷ e ∷ r) h = ground arith

runes_end_tail :
    (fuel : ℕ) (d : List ℕ)
    → length d ≤ fuel
    → (runes_end fuel d ≤ length d) × (length d ≤ runes_end fuel d + 3)
unfolding runes_end
runes_end_tail zero d h = (omega arith, omega arith)
runes_end_tail (suc fuel) d h = elim (Bool-cases (full_rune d)) [
  | inl full ↦ rw full (
      let (below, near) =
        runes_end_tail fuel (drop (rune_size d) d)
          (omega (arith, rune_size_pos d full, length-drop (rune_size d) d)) in
      (
        omega (arith, rune_size-le-length d, length-drop (rune_size d) d, below),
        omega (arith, rune_size-le-length d, length-drop (rune_size d) d, near),
      ))
  | inr part ↦ rw part (omega arith, omega (arith, full_rune_of_length d part))
]

-- At most three bytes of a chunk wait for the next one.
pub complete_end_bounds :
    (d : List ℕ) → (complete_end d ≤ length d) × (length d ≤ complete_end d + 3)
unfolding complete_end
complete_end_bounds d = runes_end_tail (length d) d (omega arith)
