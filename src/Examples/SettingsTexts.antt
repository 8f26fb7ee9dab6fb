-- ===== src/Examples/SettingsTexts.antt =====
-- Runs of the texts of internal/settings and internal/worktree, on lower case as it is.
use kamacu.Common.{ℕ, ◌≡◌, refl, List, [], ◌∷◌, Text, codes}
use kamacu.Settings.{slug, sanitize_title, expand_template, tokenize}
use kamacu.Settings.Slugs.{IsSlug, slug-IsSlug}
use kamacu.Settings.Templates.{slug_token, id_token, plain, expand_template-print}
use kamacu.Settings.Tokens.{print, tokenize-print}

abbrev title : Text
title = codes "fix: the  reaper!"

abbrev unchanged : Text → Text
unchanged s = s

slug-IsSlug_example : IsSlug 40 (slug unchanged title) × IsSlug 100 (sanitize_title unchanged title)
slug-IsSlug_example = slug-IsSlug unchanged title

abbrev seven : ℕ → Text
seven id = codes "7"

expand_template-print_example :
    expand_template unchanged seven (codes "f/{id}-{slug}") (codes "a-b") 7 title ≡ codes "f/7-a-b"
expand_template-print_example =
    expand_template-print unchanged seven (codes "a-b") title 7
      (plain 102 ∷ plain 47 ∷ id_token ∷ plain 45 ∷ slug_token ∷ [])
      (refl, (refl, (tt, (refl, (tt, tt)))))

abbrev arguments : List (ℕ × Text)
arguments = (34, codes "--a b") ∷ (39, codes "it is \"so\"") ∷ []

tokenize-print_example : tokenize (print arguments) ≡ codes "--a b" ∷ codes "it is \"so\"" ∷ []
tokenize-print_example = tokenize-print arguments ((refl, refl, refl), ((refl, refl, refl), tt))
