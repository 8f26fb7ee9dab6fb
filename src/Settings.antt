-- ===== src/Settings.antt =====
-- Texts that the settings make: `Slug` of internal/worktree/worktree.go, internal/settings/template.go
-- and tokenize.go. `lower` is `strings.ToLower`, `format_int` is `strconv.FormatInt` to base ten.
pub mod Slugs
pub mod Templates
pub mod Tokens
use kamacu.Common.{
  ℕ, zero, suc, Bool, true, false, not, ◌&&◌, ◌||◌, Option, none, some, List, [], ◌∷◌, ◌++◌, Text,
  codes, if◌then◌else◌, ltb, leb, ◌==◌, length, take, is_nil, is_space, trim_left, trim_right,
  has_prefix,
}

abbrev pub is_slug_char : ℕ → Bool
is_slug_char r = leb 97 r && leb r 122 || leb 48 r && leb r 57

abbrev pub is_dash : ℕ → Bool
is_dash r = r == 45

-- The loop over the title: whether a dash was written last, and whether anything was.
abbrev pub collapse : Bool → Bool → Text → Text
collapse dash written [] = []
collapse dash written (r ∷ s) = elim (is_slug_char r) [
  | true ↦ r ∷ collapse false true s
  | false ↦ elim (not dash && written) [
    | true ↦ 45 ∷ collapse true true s
    | false ↦ collapse dash written s
  ]
]

abbrev pub cut : ℕ → Text → Text
cut limit s = if ltb limit (length s) then trim_right is_dash (take limit s) else s

abbrev pub or_task : Text → Text
or_task s = if is_nil s then codes "task" else s

-- The body that `Slug` and `sanitizeTitle` share, but for the cap.
abbrev pub sanitize : ℕ → Text → Text
sanitize limit lowered =
    or_task (cut limit (trim_right is_dash (trim_left is_dash (collapse false false lowered))))

-- `worktree.Slug`.
unfoldable pub slug : (Text → Text) → Text → Text
slug lower title = sanitize 40 (lower title)

unfoldable pub sanitize_title : (Text → Text) → Text → Text
sanitize_title lower title = sanitize 100 (lower title)

-- `strings.NewReplacer`: at each place the first key that stands there is replaced, and reading goes
-- on behind it.
abbrev pub key_at : List (Text × Text) → Text → Option (ℕ × Text)
key_at [] s = none
key_at ((old, new) ∷ rest) s = if has_prefix s old then some (length old, new) else key_at rest s

-- `skip` characters of a key are still to be passed over.
abbrev pub replace : List (Text × Text) → ℕ → Text → Text
replace keys skip [] = []
replace keys (suc skip) (c ∷ s) = replace keys skip s
replace keys zero (c ∷ s) = elim (key_at keys (c ∷ s)) [
  | none ↦ c ∷ replace keys 0 s
  | some (zero, new) ↦ c ∷ replace keys 0 s
  | some (suc n, new) ↦ new ++ replace keys n s
]

unfoldable pub expand_template : (Text → Text) → (ℕ → Text) → Text → Text → ℕ → Text → Text
expand_template lower format_int tpl slug_ id title =
    replace
      ((codes "{slug}", slug_)
        ∷ (codes "{id}", format_int id)
        ∷ (codes "{title}", sanitize_title lower title)
        ∷ [])
      0 tpl

abbrev pub flush : Text → List Text → List Text
flush [] tokens = tokens
flush (c ∷ cur) tokens = (c ∷ cur) ∷ tokens

-- The loop of `Tokenize`: the token that is being read, and the quote that is open.
abbrev pub tokens_from : Text → Option ℕ → Text → List Text
tokens_from cur quote [] = flush cur []
tokens_from cur (some q) (r ∷ s) = elim (r == q) [
  | true ↦ tokens_from cur none s
  | false ↦ tokens_from (cur ++ r ∷ []) (some q) s
]
tokens_from cur none (r ∷ s) = elim (r == 39 || r == 34) [
  | true ↦ tokens_from cur (some r) s
  | false ↦ elim (is_space r) [
    | true ↦ flush cur (tokens_from [] none s)
    | false ↦ tokens_from (cur ++ r ∷ []) none s
  ]
]

unfoldable pub tokenize : Text → List Text
tokenize s = tokens_from [] none s
