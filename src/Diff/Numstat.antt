-- ===== src/Diff/Numstat.antt =====
-- `parseNumstatZ` and `atoiSafe` of internal/diff/parse.go, and that no record puts the next
-- ones out of step.
use kamacu.Common.{
  ℕ, ◌+◌, ◌-◌, ◌*◌, ◌^◌, ◌≡◌, refl, ap, Bool, true, false, ◌||◌, Option, none, some, List, [], ◌∷◌,
  ◌++◌, if◌then◌else◌, ltb, ◌==◌, u64, arith, Text, text_eq, split, is_nil, All, All-append, ◌∙◌,
  map, codes, Bool-cases, inl, inr,
}

abbrev pub tab : ℕ
tab = 9

abbrev pub dash : ℕ
dash = 45

-- `numstatRecord`.
pub record NumstatRecord : Type 0 where
  pub added : ℕ
  pub deleted : ℕ
  pub binary : Bool
  pub path : Text
  pub old_path : Text

-- The loop of `atoiSafe` behind the first character.
unfoldable pub atoi_digits : ℕ → Text → Option ℕ
atoi_digits n [] = some n
atoi_digits n (r ∷ s) =
    let rest = atoi_digits (u64 (n * 10 + (r - 48))) s in
    if ltb r 48 || ltb 57 r then none else rest

abbrev pub or_zero : Option ℕ → ℕ
or_zero none = 0
or_zero (some n) = n

abbrev pub negative : ℕ → ℕ
negative n = u64 (2 ^ 64 - n)

unfoldable pub atoi_safe : Text → ℕ
unfolding atoi_digits
atoi_safe [] = 0
atoi_safe (r ∷ s) =
    if r == dash then negative (or_zero (atoi_digits 0 s)) else or_zero (atoi_digits 0 (r ∷ s))

-- The text before the first `sep`, and the text behind it.
unfoldable pub cut : ℕ → Text → Option (Text × Text)
cut sep [] = none
cut sep (c ∷ s) =
    let rest = cut sep s in
    if c == sep then some ([], s) else elim rest [ none ↦ none | some p ↦ some (c ∷ p.0, p.1) ]

-- The three parts of `strings.SplitN(tok, "\t", 3)`.
pub record Columns : Type 0 where
  pub left : Text
  pub right : Text
  pub name : Text

abbrev pub rest_columns : Text → Option (Text × Text) → Option Columns
rest_columns a none = none
rest_columns a (some (b, p)) = some record { left = a; right = b; name = p }

abbrev pub first_column : Option (Text × Text) → Option Columns
first_column none = none
first_column (some (a, s)) = rest_columns a (cut tab s)

-- `none` for an empty or malformed token, which the loop skips.
unfoldable pub columns : Text → Option Columns
unfolding cut
columns tok = first_column (cut tab tok)

-- The counts of a record; `-` marks a binary file.
unfoldable pub counted : Columns → Text → Text → NumstatRecord
unfolding atoi_safe
counted c old path =
    if text_eq c.left (dash ∷ []) || text_eq c.right (dash ∷ [])
    then record { added = 0; deleted = 0; binary = true; path = path; old_path = old }
    else record {
      added = atoi_safe c.left;
      deleted = atoi_safe c.right;
      binary = false;
      path = path;
      old_path = old;
    }

-- The loop over the tokens. A rename takes the next two, when there are two.
unfoldable pub walk : List Text → List NumstatRecord
unfolding columns counted
walk [] = []
walk (tok ∷ []) = elim (columns tok) [ none ↦ [] | some c ↦ counted c [] c.name ∷ [] ]
walk (tok ∷ o ∷ []) =
    let rest = walk (o ∷ []) in
    elim (columns tok) [ none ↦ rest | some c ↦ counted c [] c.name ∷ rest ]
walk (tok ∷ o ∷ n ∷ rest) = elim (columns tok) [
  | none ↦ walk (o ∷ n ∷ rest)
  | some c ↦ elim (is_nil c.name) [
    | true ↦ counted c o n ∷ walk rest
    | false ↦ counted c [] c.name ∷ walk (o ∷ n ∷ rest)
  ]
]

-- `parseNumstatZ`.
unfoldable pub parse_numstat_z : Text → List NumstatRecord
unfolding walk split
parse_numstat_z out = if is_nil out then [] else walk (split 0 out)

-- What git writes: the columns and either the path, or nothing and then both paths of a rename.
pub data Entry : Type 0 where
  changed : Text → Text → Text → Entry
  renamed : Text → Text → Text → Text → Entry

abbrev pub row : Text → Text → Text → Text
row a d p = a ++ (tab ∷ (d ++ (tab ∷ p)))

unfoldable pub print : List Entry → Text
print [] = []
print (changed a d p ∷ es) = row a d p ++ (0 ∷ print es)
print (renamed a d o n ∷ es) = row a d [] ++ (0 ∷ (o ++ (0 ∷ (n ++ (0 ∷ print es)))))

-- The record an entry stands for: the lines added are told first, and `-` in both for a binary file.
abbrev pub record_of_counts : Text → Text → Text → Text → NumstatRecord
record_of_counts a d old path =
    let binary = text_eq a (codes "-") || text_eq d (codes "-") in
    record {
      added = if binary then 0 else atoi_safe a;
      deleted = if binary then 0 else atoi_safe d;
      binary = binary;
      path = path;
      old_path = old;
    }

abbrev pub record_of : Entry → NumstatRecord
record_of (changed a d p) = record_of_counts a d [] p
record_of (renamed a d o n) = record_of_counts a d o n

-- A text without the character.
abbrev pub Without : ℕ → Text → Type 0
Without c s = All (λ d. (d == c) ≡ false) s

-- Columns have neither a tab nor NUL, paths no NUL, and a path is not empty.
abbrev pub IsEntry : Entry → Type 0
IsEntry (changed a d p) =
    Without tab a × Without 0 a × Without tab d × Without 0 d × Without 0 p × (is_nil p ≡ false)
IsEntry (renamed a d o n) =
    Without tab a × Without 0 a × Without tab d × Without 0 d × Without 0 o × Without 0 n

-- Git's text read as tokens.
abbrev tokens : List Entry → List Text
tokens [] = [] ∷ []
tokens (changed a d p ∷ es) = row a d p ∷ tokens es
tokens (renamed a d o n ∷ es) = row a d [] ∷ o ∷ n ∷ tokens es

cut-append : (c : ℕ) (s t : Text) → Without c s → cut c (s ++ c ∷ t) ≡ some (s, t)
unfolding cut
cut-append c [] t h = ground arith
cut-append c (d ∷ s) t h = ground (arith, cut-append c s t h.1, h.0)

split-append : (c : ℕ) (s t : Text) → Without c s → split c (s ++ c ∷ t) ≡ s ∷ split c t
unfolding split
split-append c [] t h = ground arith
split-append c (d ∷ s) t h = ground (arith, split-append c s t h.1, h.0)

columns-print :
    (a d p : Text)
    → Without tab a
    → Without tab d
    → columns (row a d p) ≡ some record { left = a; right = d; name = p }
unfolding columns
columns-print a d p ha hd =
    ap first_column (cut-append tab a (d ++ (tab ∷ p)) ha)
    ∙ ap (rest_columns a) (cut-append tab d p hd)

Without-row : (a d p : Text) → Without 0 a → Without 0 d → Without 0 p → Without 0 (row a d p)
Without-row a d p ha hd hp =
    All-append (λ c. (c == 0) ≡ false) a (tab ∷ (d ++ (tab ∷ p))) ha
      (refl, All-append (λ c. (c == 0) ≡ false) d (tab ∷ p) hd (refl, hp))

split-print : (es : List Entry) → All IsEntry es → split 0 (print es) ≡ tokens es
unfolding split print
split-print [] h = refl
split-print (changed a d p ∷ es) ((_, ha, _, hd, hp, _), hs) =
    split-append 0 (row a d p) (print es) (Without-row a d p ha hd hp)
    ∙ ap (λ ts. row a d p ∷ ts) (split-print es hs)
split-print (renamed a d o n ∷ es) ((_, ha, _, hd, ho, hn), hs) =
    split-append 0 (row a d []) (o ++ (0 ∷ (n ++ (0 ∷ print es)))) (Without-row a d [] ha hd tt)
    ∙ ap (λ ts. row a d [] ∷ ts)
        (split-append 0 o (n ++ (0 ∷ print es)) ho
          ∙ ap (λ ts. o ∷ ts)
              (split-append 0 n (print es) hn ∙ ap (λ ts. n ∷ ts) (split-print es hs)))

-- A token with a path gives its record, whatever follows.
walk_changed :
    (tok : Text) (c : Columns) (rest : List Text)
    → columns tok ≡ some c
    → is_nil c.name ≡ false
    → walk (tok ∷ rest) ≡ counted c [] c.name ∷ walk rest
unfolding walk
walk_changed tok c [] h k = cc
walk_changed tok c (o ∷ []) h k = rw (walk, h)
walk_changed tok c (o ∷ n ∷ rest) h k = rw (walk, h, k)

counted-record_of :
    (a d name old path : Text)
    → counted record { left = a; right = d; name = name } old path ≡ record_of_counts a d old path
unfolding counted
counted-record_of a d name old path =
    elim (Bool-cases (text_eq a (codes "-") || text_eq d (codes "-"))) [
      | inl h ↦ rw h refl
      | inr h ↦ rw h refl
    ]

walk-tokens : (es : List Entry) → All IsEntry es → walk (tokens es) ≡ map record_of es
unfolding walk
walk-tokens [] h = refl
walk-tokens (changed a d p ∷ es) ((ha, _, hd, _, _, hp), hs) =
    walk_changed (row a d p) _ (tokens es) (columns-print a d p ha hd) hp
    ∙ ap (λ r. r ∷ walk (tokens es)) (counted-record_of a d p [] p)
    ∙ ap (λ rs. record_of (changed a d p) ∷ rs) (walk-tokens es hs)
walk-tokens (renamed a d o n ∷ es) ((ha, _, hd, _, _, _), hs) =
    rw (walk, columns-print a d [] ha hd, counted-record_of a d [] o n, walk-tokens es hs)

print_not_nil : (e : Entry) (es : List Entry) → is_nil (print (e ∷ es)) ≡ false
unfolding print
print_not_nil (changed [] d p) es = refl
print_not_nil (changed (x ∷ a) d p) es = refl
print_not_nil (renamed [] d o n) es = refl
print_not_nil (renamed (x ∷ a) d o n) es = refl

-- Reading back what git wrote gives the record of every entry, in order, with its counts as
-- `atoiSafe` reads them and its paths, where columns hold
-- neither tab nor NUL, paths no NUL, and the path of a changed file is not empty: a rename, with
-- its two extra fields, puts no later record out of step.
pub parse_print : (es : List Entry) → All IsEntry es → parse_numstat_z (print es) ≡ map record_of es
unfolding parse_numstat_z print
parse_print [] h = refl
parse_print (e ∷ es) h = rw (print_not_nil e es, split-print (e ∷ es) h, walk-tokens (e ∷ es) h)
