-- ===== src/Examples/Diffs.antt =====
-- Runs of internal/diff/parse.go.
use kamacu.Common.{◌≡◌, refl, none, some, List, [], ◌∷◌, ◌++◌, codes, All, map}
use kamacu.Diff.Numstat.{
  Entry, changed, renamed, IsEntry, print, parse_numstat_z, record_of, parse_print,
}
use kamacu.Diff.Patch.{
  add, del, context, Hunk, hunk_header, flush_file, read_lines, empty_file, body_line, index_of,
}
use kamacu.Diff.Patch.Hunks.{IsHunk, hunk_lines, hunks_read}

-- A renamed file before a binary one.
abbrev entries : List Entry
entries =
    renamed (codes "3") (codes "1") (codes "old.go") (codes "new.go")
    ∷ changed (codes "-") (codes "-") (codes "logo.png")
    ∷ []

entries-IsEntry : All IsEntry entries
entries-IsEntry = (
  (
    (refl, tt),
    (refl, tt),
    (refl, tt),
    (refl, tt),
    (refl, (refl, (refl, (refl, (refl, (refl, tt)))))),
    (refl, (refl, (refl, (refl, (refl, (refl, tt)))))),
  ),
  (
    (
      (refl, tt),
      (refl, tt),
      (refl, tt),
      (refl, tt),
      (refl, (refl, (refl, (refl, (refl, (refl, (refl, (refl, tt)))))))),
      refl,
    ),
    tt,
  ),
)

parse_print_example : parse_numstat_z (print entries) ≡ map record_of entries
parse_print_example = parse_print entries entries-IsEntry

abbrev hunk : Hunk
hunk = record {
  header = codes "@@ -1,2 +1,2 @@";
  lines =
      record { kind = context; text = codes " a" }
      ∷ record { kind = del; text = codes "-b" }
      ∷ record { kind = add; text = codes "+c" }
      ∷ [];
}

hunk-IsHunk : IsHunk hunk
unfolding hunk_header index_of body_line
hunk-IsHunk = (refl, refl, (refl, (refl, (refl, tt))))

hunks_read_example :
    (flush_file (
      read_lines
        record { files = []; cur = some empty_file; hunk = none }
        (hunk_lines (hunk ∷ [])))).files
    ≡ [] ++ (record empty_file { hunks = hunk ∷ [] } ∷ [])
hunks_read_example = hunks_read [] empty_file (hunk ∷ []) (hunk-IsHunk, tt)
