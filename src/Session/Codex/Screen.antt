-- ===== src/Session/Codex/Screen.antt =====
-- `codexScreenStatus` of internal/session/codex_status.go. Its regular expressions and the lower
-- casing of the screen are a parameter.
use kamacu.Common.{
  ◌≡◌, refl, ap, Bool, true, false, not, ◌&&◌, ◌||◌, List, [], ◌∷◌, ◌++◌, arith, if◌then◌else◌,
  Text, codes, contains, has_prefix, text_eq, trim_space, trim_left, split, ◌==◌, map, reverse, any,
  Bool-cases, inl, inr,
}
use kamacu.Session.{ScreenStatus, unclear, seen_working, seen_waiting, seen_idle}

pub record Patterns : Type 0 where
  pub lower : Text → Text
  pub codex_running : Text → Bool
  pub codex_interrupt : Text → Bool
  pub codex_choice : Text → Bool

module _ (m : Patterns) where
  -- A footer that shows a running turn.
  unfoldable pub is_running : Text → Bool
  is_running line = m.codex_running line || m.codex_interrupt line

  -- The chrome of a menu.
  unfoldable pub is_hint : Text → Bool
  is_hint line =
      contains line (codes "enter to select")
      || (contains line (codes "enter to confirm")
          || contains line (codes "enter to submit answer"))

  -- An input prompt that is no choice of a menu.
  unfoldable pub is_prompt_line : Text → Bool
  is_prompt_line line =
      (has_prefix line (codes "›") || has_prefix line (codes "❯")) && not (m.codex_choice line)

  unfoldable pub is_end : Text → Bool
  is_end line =
      has_prefix line (codes "■ conversation interrupted")
      || (has_prefix (trim_left (λ c. c == 0x2500 || c == 32) line) (codes "worked for ")
          || text_eq line (codes "<< code review finished >>"))

  -- The loop from the last line up, over the lines in that order.
  unfoldable pub scan_lines : Bool → Bool → List Text → ScreenStatus
  scan_lines hint parked [] = if parked && not hint then seen_idle else unclear
  scan_lines hint parked (line ∷ above) =
      let hint' = hint || (not parked && is_hint line) in
      let parked' = parked || is_prompt_line line in
      let rest = scan_lines hint' parked' above in
      if is_running line
      then seen_working
      else if hint' && (not parked' && m.codex_choice line)
      then seen_waiting
      else if is_end line
      then seen_idle
      else rest

  -- The trimmed lines of the lowered screen, last line first.
  unfoldable pub lines_up : Text → List Text
  lines_up screen = map trim_space (reverse (split 10 (m.lower screen)))

  unfoldable pub codex_screen_status : Text → ScreenStatus
  codex_screen_status screen = scan_lines false false (lines_up screen)

  -- The footer of a running turn decides, whatever menu stands above it.
  scan_lines_footer :
      (hint parked : Bool) (below : List Text) (footer : Text) (above : List Text)
      → any (λ l. is_running l || (is_end l || m.codex_choice l)) below ≡ false
      → is_running footer ≡ true
      → scan_lines hint parked (below ++ footer ∷ above) ≡ seen_working
  unfolding scan_lines
  scan_lines_footer hint parked [] footer above quiet runs = ground arith
  scan_lines_footer hint parked (l ∷ below) footer above quiet runs = ground (
    arith,
    scan_lines_footer (hint || (not parked && is_hint l)) (parked || is_prompt_line l) below footer
        above,
  )

  -- The shape of a screen that waits: from below, lines that neither run, end nor prompt, then a
  -- choice of a menu whose chrome stands below it or beside it.
  pub record Menu (hint : Bool) (lines : List Text) : Type 0 where
    pub below : List Text
    pub choice : Text
    pub above : List Text
    pub shape : lines ≡ below ++ choice ∷ above
    pub quiet : any (λ l. is_running l || (is_end l || is_prompt_line l)) below ≡ false
    pub idle_choice : (is_running choice || is_prompt_line choice) ≡ false
    pub chosen : m.codex_choice choice ≡ true
    pub chrome : (hint || any is_hint (below ++ choice ∷ [])) ≡ true

  parked_never_waits :
      (hint : Bool) (lines : List Text) → (scan_lines hint true lines ≡ seen_waiting) → ⊥
  unfolding scan_lines
  parked_never_waits true [] e = ground arith
  parked_never_waits false [] e = ground arith
  parked_never_waits hint (l ∷ lines) e = ground (arith, parked_never_waits hint lines)

  waiting-Menu :
      (hint : Bool) (lines : List Text)
      → scan_lines hint false lines ≡ seen_waiting
      → Menu hint lines
  unfolding scan_lines
  waiting-Menu hint [] e = absurd (ground arith)
  waiting-Menu hint (l ∷ lines) e = elim (Bool-cases (is_prompt_line l)) [
    | inl parks ↦ absurd (ground (arith, parked_never_waits (hint || is_hint l) lines))
    | inr open_line ↦ elim (Bool-cases ((hint || is_hint l) && m.codex_choice l)) [
      | inl here ↦ record {
        below = [];
        choice = l;
        above = lines;
        shape = refl;
        quiet = refl;
        idle_choice = ground arith;
        chosen = ground arith;
        chrome = ground arith;
      }
      | inr further ↦
          let next = waiting-Menu (hint || is_hint l) lines (ground arith) in
          record {
            below = l ∷ next.below;
            choice = next.choice;
            above = next.above;
            shape = ap (◌∷◌ l) next.shape;
            quiet = ground (arith, next.quiet);
            idle_choice = next.idle_choice;
            chosen = next.chosen;
            chrome = ground (arith, next.chrome);
          }
    ]
  ]

  -- A running footer at the bottom of the screen wins over whatever stands above it, be it a menu
  -- that waits: with no other footer, end mark or choice below it the screen reads as working.
  pub footer_wins :
      (screen : Text) (below : List Text) (footer : Text) (above : List Text)
      → lines_up screen ≡ below ++ footer ∷ above
      → any (λ l. is_running l || (is_end l || m.codex_choice l)) below ≡ false
      → is_running footer ≡ true
      → codex_screen_status screen ≡ seen_working
  unfolding codex_screen_status
  footer_wins screen below footer above e quiet runs =
      rw e (scan_lines_footer false false below footer above quiet runs)

  -- A screen reads as waiting only where it shows a menu: a choice, its chrome on that line or
  -- below, and between the choice and the bottom no running footer, end mark or input prompt.
  pub waiting_needs-Menu :
      (screen : Text) → codex_screen_status screen ≡ seen_waiting → Menu false (lines_up screen)
  unfolding codex_screen_status
  waiting_needs-Menu screen e = waiting-Menu false (lines_up screen) e
