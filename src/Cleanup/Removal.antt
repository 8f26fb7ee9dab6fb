-- ===== src/Cleanup/Removal.antt =====
-- How a removal of internal/api/cleanup.go ends: `classifyRemoveBlocked` and `parseCouldNotOpenDir`.
use kamacu.Common.{
  ℕ, Bool, ◌&&◌, ◌||◌, Option, none, some, [], ◌∷◌, String, Text, codes, contains, has_prefix, drop,
  length, is_nil, if◌then◌else◌, ◌==◌, not,
}

-- An error of `wt.Remove`: its text, and the path if it is a permission error of the file system.
pub record Failure : Type 0 where
  pub permission_path : Option Text
  pub message : Text

pub data Cleanup : Type 0 where
  removed failed : Cleanup
  refused : String → Cleanup
  blocked : Text → Cleanup

-- What stands behind the first occurrence of a marker.
unfoldable pub after : Text → Text → Option Text
after marker [] = if has_prefix [] marker then some [] else none
after marker (c ∷ s) =
    let rest = after marker s in
    if has_prefix (c ∷ s) marker then some (drop (length marker) (c ∷ s)) else rest

-- What stands before the first `c`, or the empty text.
unfoldable pub before : ℕ → Text → Option Text
before c [] = none
before c (d ∷ s) =
    let rest = before c s in
    if d == c then some [] else elim rest [ none ↦ none | some t ↦ some (d ∷ t) ]

abbrev pub open_marker : Text
open_marker = codes "could not open directory '"

unfoldable pub parse_could_not_open_dir : Text → Text
unfolding after before
parse_could_not_open_dir msg = elim (after open_marker msg) [
  | none ↦ []
  | some rest ↦ elim (before 39 rest) [ none ↦ [] | some dir ↦ dir ]
]

abbrev pub is_permission_message : Text → Bool
is_permission_message msg =
    contains msg (codes "Permission denied")
    || contains msg (codes "Directory not empty") && contains msg (codes "failed to delete")

unfoldable pub classify_remove_blocked : Failure → Text → Cleanup
unfolding parse_could_not_open_dir
classify_remove_blocked f path = elim f.permission_path [
  | some p ↦ blocked p
  | none ↦
      let dir = parse_could_not_open_dir f.message in
      if not (is_permission_message f.message)
      then failed
      else blocked (if is_nil dir then path else dir)
]
