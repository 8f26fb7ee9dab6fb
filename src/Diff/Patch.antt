-- ===== src/Diff/Patch.antt =====
-- `parsePatch` of internal/diff/parse.go with its helpers: the fields of a `File` that it sets,
-- the loop over the lines as a fold, and that the hunks git printed are the hunks it reads.
pub mod Hunks
use kamacu.Common.{
  ℕ, zero, suc, ◌+◌, ◌≤◌, ◌≡◌, refl, ap, sym, Bool, true, false, not, ◌||◌, ◌&&◌, Option, none,
  some, List, [], ◌∷◌, ◌++◌, if◌then◌else◌, ltb, ◌==◌, arith, Text, text_eq, codes, split, is_nil,
  has_prefix, length, drop, take, All, ◌∙◌, String,
}

pub data Kind : Type 0 where
  context add del : Kind

pub record Line : Type 0 where
  pub kind : Kind
  pub text : Text

pub record Hunk : Type 0 where
  pub header : Text
  pub lines : List Line

pub data FileStatus : Type 0 where
  modified created deleted renamed : FileStatus

pub record File : Type 0 where
  pub path : Text
  pub old_path : Option Text
  pub status : FileStatus
  pub binary : Bool
  pub hunks : List Hunk

abbrev pub starts : String → Text → Bool
starts p line = has_prefix line (codes p)

-- `strings.TrimPrefix`.
unfoldable pub trim_prefix : String → Text → Text
trim_prefix p line = if starts p line then drop (length (codes p)) line else line

-- `strings.Index`, and what stands behind the match.
unfoldable pub behind : Text → Text → Option Text
behind p [] = if has_prefix [] p then some [] else none
behind p (c ∷ s) =
    let rest = behind p s in if has_prefix (c ∷ s) p then some (drop (length p) (c ∷ s)) else rest

unfoldable pub index_of : Text → Text → Option ℕ
index_of p [] = if has_prefix [] p then some 0 else none
index_of p (c ∷ s) =
    let rest = index_of p s in
    if has_prefix (c ∷ s) p then some 0 else elim rest [ none ↦ none | some i ↦ some (suc i) ]

-- `pathFromDiffGit`.
unfoldable pub path_from_diff_git : Text → Option Text
unfolding trim_prefix behind
path_from_diff_git line = behind (codes " b/") (trim_prefix "diff --git " line)

-- `patchPath`.
unfoldable pub patch_path : Text → String → Option Text
unfolding trim_prefix
patch_path line marker =
    let rest = trim_prefix marker line in
    if text_eq rest (codes "/dev/null")
    then none
    else some (trim_prefix "b/" (trim_prefix "a/" rest))

-- `hunkHeader`.
unfoldable pub hunk_header : Text → Text
unfolding index_of
hunk_header line =
    if starts "@@ " line
    then elim (index_of (codes "@@") (drop 3 line)) [
      | none ↦ line
      | some end ↦ take (3 + end + 2) line
    ]
    else line

abbrev set_path : File → Option Text → File
set_path f none = f
set_path f (some p) = record f { path = p }

-- `applyHeader`.
unfoldable pub apply_header : File → Text → File
unfolding trim_prefix patch_path
apply_header f line =
    if starts "Binary files " line
    then record f { binary = true }
    else if starts "new file mode" line
    then record f { status = created }
    else if starts "deleted file mode" line
    then record f { status = deleted }
    else if starts "rename from " line
    then record f { status = renamed; old_path = some (trim_prefix "rename from " line) }
    else if starts "rename to " line
    then record f { status = renamed; path = trim_prefix "rename to " line }
    else if starts "--- " line
    then if is_nil f.path then set_path f (patch_path line "--- ") else f
    else if starts "+++ " line
    then set_path f (patch_path line "+++ ")
    else f

-- The variables of the loop: `files`, `cur` and `hunk`.
pub record Parser : Type 0 where
  pub files : List File
  pub cur : Option File
  pub hunk : Option Hunk

abbrev with_hunk : File → Option Hunk → File
with_hunk f none = f
with_hunk f (some h) = record f { hunks = f.hunks ++ (h ∷ []) }

unfoldable pub flush_hunk : Parser → Parser
flush_hunk p = elim p.cur [
  | none ↦ p
  | some f ↦ record p { cur = some (with_hunk f p.hunk); hunk = none }
]

abbrev close : Parser → Option File → Parser
close p none = p
close p (some f) = record p { files = p.files ++ (f ∷ []); cur = none }

unfoldable pub flush_file : Parser → Parser
unfolding flush_hunk
flush_file p = close (flush_hunk p) (flush_hunk p).cur

-- A line of a hunk's body.
unfoldable pub body_line : Text → Option Line
body_line line =
    if starts "\\" line
    then none
    else if starts "+" line
    then some record { kind = add; text = line }
    else if starts "-" line
    then some record { kind = del; text = line }
    else if starts " " line
    then some record { kind = context; text = line }
    else none

abbrev append_line : Hunk → Option Line → Hunk
append_line h none = h
append_line h (some l) = record h { lines = h.lines ++ (l ∷ []) }

abbrev pub empty_file : File
empty_file = record { path = []; old_path = none; status = modified; binary = false; hunks = [] }

-- A line behind the first "diff --git".
unfoldable pub in_section : Parser → File → Text → Parser
unfolding flush_hunk hunk_header body_line apply_header
in_section p f line =
    if starts "@@" line
    then record (flush_hunk p) { hunk = some record { header = hunk_header line; lines = [] } }
    else elim p.hunk [
      | some h ↦ record p { hunk = some (append_line h (body_line line)) }
      | none ↦ record p { cur = some (apply_header f line) }
    ]

-- One round of the loop.
unfoldable pub read_line : Parser → Text → Parser
unfolding flush_file path_from_diff_git in_section
read_line p line =
    if starts "diff --git " line
    then record (flush_file p) { cur = some (set_path empty_file (path_from_diff_git line)) }
    else elim p.cur [ none ↦ p | some f ↦ in_section p f line ]

unfoldable pub read_lines : Parser → List Text → Parser
unfolding read_line
read_lines p [] = p
read_lines p (line ∷ ls) = read_lines (read_line p line) ls

-- `parsePatch`.
unfoldable pub parse_patch : Text → List File
unfolding read_lines flush_file split
parse_patch out =
    if is_nil out
    then []
    else (flush_file
        (read_lines record { files = []; cur = none; hunk = none } (split 10 out))).files
