-- ===== src/Monitor/Screen.antt =====
-- `generationLine` and `normalizedScreen` of internal/monitor/efficiency.go. The regular
-- expressions of the two progress footers are a parameter: each tells whether a line is such a
-- footer, and what it reads without its clock.
use kamacu.Common.{
  ℕ, zero, suc, ◌+◌, ◌-◌, ◌≤◌, ◌<◌, ◌≡◌, refl, Bool, true, false, not, ◌&&◌, ◌||◌, Option, none,
  some, List, [], ◌∷◌, String, str_eq, if◌then◌else◌, leb, arith, length, Text, codes, has_prefix,
  trim_space, split, join, is_some,
}

pub record Footers : Type 0 where
  pub codex_footer : Text → Bool
  pub codex_neutral : Text → Text
  pub claude_footer : Text → Bool
  pub claude_neutral : Text → Text

module _ (f : Footers) where
  abbrev pub is_footer : String → Text → Bool
  is_footer engine line =
      (str_eq engine "codex" && f.codex_footer line)
      || (str_eq engine "claude" && f.claude_footer line)

  abbrev pub is_fence : Text → Bool
  is_fence line = has_prefix line (codes "```") || has_prefix line (codes "~~~")

  -- The loop from line `i` on of `total`: the last footer of the last eight lines that stands in
  -- no code block. `none` stands for -1.
  unfoldable pub last_footer : String → ℕ → ℕ → Bool → Option ℕ → List Text → Option ℕ
  last_footer engine total i fenced last [] = last
  last_footer engine total i fenced last (raw ∷ lines) =
      let line = trim_space raw in
      let fence = is_fence line in
      let here = not fence && (not fenced && (leb (total - 8) i && is_footer engine line)) in
      last_footer engine total (suc i) (if fence then not fenced else fenced)
        (if here then some i else last) lines

  unfoldable pub generation_line : Text → String → Option ℕ
  unfolding last_footer split
  generation_line screen engine =
      let lines = split 10 screen in last_footer engine (length lines) 0 false none lines

  unfoldable pub active_generation : Text → String → Bool
  unfolding generation_line
  active_generation screen engine = is_some (generation_line screen engine)

  abbrev pub set_line : ℕ → (Text → Text) → List Text → List Text
  set_line i g [] = []
  set_line zero g (l ∷ ls) = g l ∷ ls
  set_line (suc i) g (l ∷ ls) = l ∷ set_line i g ls

  -- The footer's clock is not evidence; all else is.
  abbrev pub neutral : String → Text → Text
  neutral engine line =
      if str_eq engine "codex"
      then f.codex_neutral line
      else if f.claude_footer (trim_space line)
      then f.claude_neutral (trim_space line)
      else line

  unfoldable pub normalized_screen : Text → String → Text
  unfolding generation_line
  normalized_screen screen engine = elim (generation_line screen engine) [
    | none ↦ screen
    | some i ↦ join 10 (set_line i (neutral engine) (split 10 screen))
  ]

  -- The line that is found lies on the screen, among its last eight lines.
  abbrev pub IsNear : ℕ → ℕ → Option ℕ → Type 0
  IsNear total end none = Unit
  IsNear total end (some i) = (i < end) × (total ≤ i + 8)

  last_footer-IsNear :
      (engine : String) (total end i : ℕ) (fenced : Bool) (last : Option ℕ) (lines : List Text)
      → i + length lines ≡ end
      → IsNear total end last
      → IsNear total end (last_footer engine total i fenced last lines)
  unfolding last_footer
  last_footer-IsNear engine total end i fenced last [] e h = h
  last_footer-IsNear engine total end i fenced last (raw ∷ lines) e h =
      let line = trim_space raw in
      let fence = is_fence line in
      let here = not fence && (not fenced && (leb (total - 8) i && is_footer engine line)) in
      last_footer-IsNear engine total end (suc i) (if fence then not fenced else fenced)
        (if here then some i else last) lines (omega arith)
        (near here (λ found. (omega arith, ground arith)))
    where
      near :
          (b : Bool)
          → (b ≡ true → (i < end) × (total ≤ i + 8))
          → IsNear total end (if b then some i else last)
      near true k = k refl
      near false k = h

  -- Only one of the last eight lines of the screen is ever taken for a progress footer.
  pub generation_line-IsNear :
      (screen : Text) (engine : String)
      → IsNear (length (split 10 screen)) (length (split 10 screen)) (generation_line screen engine)
  unfolding generation_line
  generation_line-IsNear screen engine =
      last_footer-IsNear engine (length (split 10 screen)) (length (split 10 screen)) 0 false none
        (split 10 screen) (omega arith) tt
