-- ===== src/Settings/Slugs.antt =====
-- Slugs of internal/worktree/worktree.go and internal/settings/template.go.
use kamacu.Common.{
  ℕ, zero, suc, ◌≤◌, ◌≡◌, refl, ap, sym, ◌∙◌, Bool, true, false, not, ◌&&◌, ◌||◌, [], ◌∷◌, ◌++◌,
  Text, if◌then◌else◌, ltb, ◌==◌, length, take, is_nil, trim_left, trim_right, reverse, Bool-cases,
  inl, inr, ◌⊎◌, arith,
}
use mathlib.Core.List.{reverse-cons, reverse-append}
use kamacu.Settings.{is_slug_char, is_dash, collapse, cut, or_task, sanitize, slug, sanitize_title}

-- Letters, digits and single dashes between them; `after_dash` also holds at the beginning.
abbrev pub is_tidy : Bool → Text → Bool
is_tidy after_dash [] = not after_dash
is_tidy after_dash (c ∷ s) =
    if is_slug_char c then is_tidy false s else c == 45 && not after_dash && is_tidy true s

-- The same, but that a dash may stand at the end.
abbrev is_loose : Bool → Text → Bool
is_loose after_dash [] = true
is_loose after_dash (c ∷ s) =
    if is_slug_char c then is_loose false s else c == 45 && not after_dash && is_loose true s

abbrev pub IsSlug : ℕ → Text → Type 0
IsSlug limit s = (is_tidy true s ≡ true) × (length s ≤ limit)

-- Trimming at the end, from the front.
abbrev trim_step : (ℕ → Bool) → ℕ → Text → Text
trim_step p c [] = if p c then [] else c ∷ []
trim_step p c (d ∷ s) = c ∷ d ∷ s

trim_left-snoc :
    (p : ℕ → Bool) (s : Text) (c : ℕ)
    → trim_left p (s ++ c ∷ [])
      ≡ (if is_nil (trim_left p s) then (if p c then [] else c ∷ []) else trim_left p s ++ c ∷ [])
trim_left-snoc p [] c = ground arith
trim_left-snoc p (d ∷ s) c = ground (arith, trim_left-snoc p s c)

trim_step-snoc :
    (p : ℕ → Bool) (c : ℕ) (s : Text) (d : ℕ) → trim_step p c (s ++ d ∷ []) ≡ c ∷ (s ++ d ∷ [])
trim_step-snoc p c [] d = refl
trim_step-snoc p c (e ∷ s) d = refl

step-reverse :
    (p : ℕ → Bool) (c : ℕ) (t : Text)
    → reverse (if is_nil t then (if p c then [] else c ∷ []) else t ++ c ∷ [])
      ≡ trim_step p c (reverse t)
step-reverse p c [] = elim (Bool-cases (p c)) [ inl h ↦ rw h refl | inr h ↦ rw h refl ]
step-reverse p c (d ∷ t) =
    reverse-append (d ∷ t) (c ∷ [])
    ∙ ap (λ r. c ∷ r) (reverse-cons d t)
    ∙ sym (trim_step-snoc p c (reverse t) d)
    ∙ ap (trim_step p c) (sym (reverse-cons d t))

trim_right-cons :
    (p : ℕ → Bool) (c : ℕ) (s : Text) → trim_right p (c ∷ s) ≡ trim_step p c (trim_right p s)
unfolding trim_right
trim_right-cons p c s =
    ap (λ r. reverse (trim_left p r)) (reverse-cons c s)
    ∙ ap reverse (trim_left-snoc p (reverse s) c)
    ∙ step-reverse p c (trim_left p (reverse s))

trim_right_nil : (p : ℕ → Bool) → trim_right p [] ≡ []
unfolding trim_right
trim_right_nil p = refl

trim_step_char :
    (d : Bool) (c : ℕ) (t : Text)
    → is_slug_char c ≡ true
    → (t ≡ []) ⊎ (is_tidy false t ≡ true)
    → is_tidy d (trim_step is_dash c t) ≡ true
trim_step_char d c [] h k = ground (arith, h)
trim_step_char d c (e ∷ t) h (inl k) = absurd (ground (arith, k))
trim_step_char d c (e ∷ t) h (inr k) = ground (arith, h, k)

trim_step_dash :
    (c : ℕ) (t : Text)
    → is_slug_char c ≡ false
    → (c == 45) ≡ true
    → (t ≡ []) ⊎ (is_tidy true t ≡ true)
    → (trim_step is_dash c t ≡ []) ⊎ (is_tidy false (trim_step is_dash c t) ≡ true)
trim_step_dash c [] h e k = inl (ground (arith, e))
trim_step_dash c (x ∷ t) h e (inl k) = absurd (ground (arith, k))
trim_step_dash c (x ∷ t) h e (inr k) = inr (ground (arith, h, e, k))

length-trim_step : (c : ℕ) (t : Text) → length (trim_step is_dash c t) ≤ suc (length t)
length-trim_step c [] = ground arith
length-trim_step c (e ∷ t) = omega arith

loose_dash :
    (d : Bool) (c : ℕ) (s : Text)
    → is_loose d (c ∷ s) ≡ true
    → is_slug_char c ≡ false
    → ((c == 45) ≡ true) × (d ≡ false) × (is_loose true s ≡ true)
loose_dash d c s h k = (ground (arith, h, k), ground (arith, h, k), ground (arith, h, k))

-- What trimming leaves of a loose text: nothing, or a tidy text that is no longer.
trim_right-tidy :
    (d : Bool) (s : Text)
    → is_loose d s ≡ true
    → ((trim_right is_dash s ≡ []) ⊎ (is_tidy d (trim_right is_dash s) ≡ true))
      × (length (trim_right is_dash s) ≤ length s)
trim_right-tidy d [] h = (inl (trim_right_nil is_dash), rw (trim_right_nil is_dash) (omega arith))
trim_right-tidy d (c ∷ s) h = elim (Bool-cases (is_slug_char c)) [
  | inl k ↦
      let rest = trim_right-tidy false s (ground (arith, h, k)) in
      (
        inr (rw (trim_right-cons is_dash c s) (trim_step_char d c (trim_right is_dash s) k rest.0)),
        rw (trim_right-cons is_dash c s)
            (omega (arith, length-trim_step c (trim_right is_dash s), rest.1)),
      )
  | inr k ↦
      let f = loose_dash d c s h k in
      let rest = trim_right-tidy true s f.2 in
      (
        rw (trim_right-cons is_dash c s, f.1)
            (trim_step_dash c (trim_right is_dash s) k f.0 rest.0),
        rw (trim_right-cons is_dash c s)
            (omega (arith, length-trim_step c (trim_right is_dash s), rest.1)),
      )
]

-- A tidy text is its own trimming.
trim_right_tidy : (d : Bool) (s : Text) → is_tidy d s ≡ true → trim_right is_dash s ≡ s
trim_right_tidy d [] h = trim_right_nil is_dash
trim_right_tidy d (c ∷ []) h =
    trim_right-cons is_dash c [] ∙ rw (trim_right_nil is_dash) (ground (arith, h))
trim_right_tidy d (c ∷ e ∷ s) h =
    trim_right-cons is_dash c (e ∷ s)
    ∙ ap (trim_step is_dash c) (elim (Bool-cases (is_slug_char c)) [
      | inl k ↦ trim_right_tidy false (e ∷ s) (ground (arith, h, k))
      | inr k ↦ trim_right_tidy true (e ∷ s) (ground (arith, h, k))
    ])

loose-take : (d : Bool) (n : ℕ) (s : Text) → is_loose d s ≡ true → is_loose d (take n s) ≡ true
loose-take d zero s h = refl
loose-take d (suc n) [] h = refl
loose-take d (suc n) (c ∷ s) h = ground (arith, loose-take false n s, loose-take true n s, h)

length-take_le : (n : ℕ) (s : Text) → length (take n s) ≤ n
length-take_le zero s = omega arith
length-take_le (suc n) [] = omega arith
length-take_le (suc n) (c ∷ s) = omega (arith, length-take_le n s)

tidy_loose : (d : Bool) (s : Text) → is_tidy d s ≡ true → is_loose d s ≡ true
tidy_loose d [] h = refl
tidy_loose d (c ∷ s) h = ground (arith, tidy_loose false s, tidy_loose true s, h)

-- What the loop writes; a dash may follow only a character.
collapse-loose :
    (dash written : Bool) (s : Text)
    → is_loose (dash || not written) (collapse dash written s) ≡ true
collapse-loose dash written [] = refl
collapse-loose dash written (c ∷ s) =
    ground (
      arith,
      collapse-loose false true s,
      collapse-loose true true s,
      collapse-loose dash written s,
    )

trim_left_loose : (s : Text) → is_loose true s ≡ true → trim_left is_dash s ≡ s
trim_left_loose [] h = refl
trim_left_loose (c ∷ s) h = ground (arith, h)

ltb→ge : (a b : ℕ) → ltb a b ≡ false → b ≤ a
ltb→ge a b h = ground (arith, h)

cut_nil : (limit : ℕ) → cut limit [] ≡ []
cut_nil limit = ground arith

cut-IsSlug :
    (limit : ℕ) (s : Text)
    → (s ≡ []) ⊎ (is_tidy true s ≡ true)
    → (cut limit s ≡ []) ⊎ IsSlug limit (cut limit s)
cut-IsSlug limit s (inl e) = inl (ap (cut limit) e ∙ cut_nil limit)
cut-IsSlug limit s (inr h) = elim (Bool-cases (ltb limit (length s))) [
  | inr k ↦ rw k (inr (h, ltb→ge limit (length s) k))
  | inl k ↦
      let t = trim_right-tidy true (take limit s) (loose-take true limit s (tidy_loose true s h)) in
      rw k
        (elim t.0 [ inl e ↦ inl e | inr g ↦ inr (g, omega (arith, t.1, length-take_le limit s)) ])
]

or_task-IsSlug :
    (limit : ℕ) (s : Text) → 4 ≤ limit → (s ≡ []) ⊎ IsSlug limit s → IsSlug limit (or_task s)
or_task-IsSlug limit s big (inl e) = rw e (refl, big)
or_task-IsSlug limit [] big (inr k) = absurd (ground (arith, k.0))
or_task-IsSlug limit (c ∷ s) big (inr k) = k

-- Whatever the title, what comes out is never empty, holds only letters a to z, digits and single dashes
-- between them, and is no longer than the cap.
sanitize-IsSlug : (limit : ℕ) (s : Text) → 4 ≤ limit → IsSlug limit (sanitize limit s)
sanitize-IsSlug limit s big =
    let written = collapse false false s in
    let loose : is_loose true written ≡ true = collapse-loose false false s in
    let trimmed = trim_right-tidy true written loose in
    rw (trim_left_loose written loose) (
      or_task-IsSlug limit (cut limit (trim_right is_dash written)) big
        (cut-IsSlug limit (trim_right is_dash written) trimmed.0))

collapse_tidy :
    (d dash written : Bool) (s : Text)
    → is_tidy d s ≡ true
    → (d || not dash && written) ≡ true
    → collapse dash written s ≡ s
collapse_tidy d dash written [] h k = refl
collapse_tidy d dash written (c ∷ s) h k =
    ground (arith, collapse_tidy false false true s, collapse_tidy true true true s, h, k)

slug_not_nil : (limit : ℕ) (s : Text) → IsSlug limit s → or_task s ≡ s
slug_not_nil limit [] k = absurd (ground (arith, k.0))
slug_not_nil limit (c ∷ s) k = refl

sanitize_slug : (limit : ℕ) (s : Text) → IsSlug limit s → sanitize limit s ≡ s
sanitize_slug limit s k =
    let written : collapse false false s ≡ s = collapse_tidy true false false s k.0 refl in
    let front : trim_left is_dash s ≡ s = trim_left_loose s (tidy_loose true s k.0) in
    let back : trim_right is_dash s ≡ s = trim_right_tidy true s k.0 in
    let whole : cut limit s ≡ s = ground (arith, k.1) in
    rw (written, front, back, whole) (slug_not_nil limit s k)

-- `Slug` and `sanitizeTitle` make slugs of at most 40 and 100 characters, whatever the title.
pub slug-IsSlug :
    (lower : Text → Text) (title : Text)
    → IsSlug 40 (slug lower title) × IsSlug 100 (sanitize_title lower title)
unfolding slug sanitize_title
slug-IsSlug lower title = (
  sanitize-IsSlug 40 (lower title) (omega arith),
  sanitize-IsSlug 100 (lower title) (omega arith),
)

-- A slug is its own slug, if lower case is left alone.
pub slug-slug :
    (lower : Text → Text) (title : Text)
    → ((s : Text) → is_tidy true s ≡ true → lower s ≡ s)
    → slug lower (slug lower title) ≡ slug lower title
unfolding slug
slug-slug lower title same =
    let k = sanitize-IsSlug 40 (lower title) (omega arith) in
    ap (sanitize 40) (same (sanitize 40 (lower title)) k.0)
    ∙ sanitize_slug 40 (sanitize 40 (lower title)) k
