-- ===== src/Diff/Patch/Hunks.antt =====
-- `parsePatch` of internal/diff/parse.go on the hunks of a file.
use kamacu.Common.{
  ◌≡◌, refl, ap, true, false, Option, none, some, List, [], ◌∷◌, ◌++◌, arith, Text, All, ◌∙◌, map,
}
use mathlib.Core.List.{append_assoc, append-nil}
use kamacu.Diff.Patch.{
  Line, Hunk, File, starts, hunk_header, Parser, with_hunk, flush_hunk, flush_file, body_line,
  in_section, read_line, read_lines,
}

-- A line of a hunk as git prints it: its first character gives its kind.
abbrev pub IsBodyLine : Line → Type 0
IsBodyLine l = body_line l.text ≡ some l

-- A hunk: an "@@ ... @@" header without the section context, and its lines.
abbrev pub IsHunk : Hunk → Type 0
IsHunk h =
    (starts "@@" h.header ≡ true) × (hunk_header h.header ≡ h.header) × All IsBodyLine h.lines

-- What git prints.
unfoldable pub hunk_lines : List Hunk → List Text
hunk_lines [] = []
hunk_lines (h ∷ hs) = h.header ∷ (map (λ l. l.text) h.lines ++ hunk_lines hs)

-- A line of a body opens neither a section nor a hunk.
body_opens_none :
    (t : Text) (l : Line)
    → body_line t ≡ some l
    → (starts "@@" t ≡ false) × (starts "diff --git " t ≡ false)
unfolding body_line
body_opens_none [] l h = (refl, refl)
body_opens_none (c ∷ s) l h = (ground arith, ground arith)

header_opens_hunk : (t : Text) → starts "@@" t ≡ true → starts "diff --git " t ≡ false
header_opens_hunk [] h = refl
header_opens_hunk (c ∷ s) h = ground arith

read_body_line :
    (fs : List File) (f : File) (h : Hunk) (l : Line)
    → IsBodyLine l
    → read_line record { files = fs; cur = some f; hunk = some h } l.text
      ≡ record { files = fs; cur = some f; hunk = some record h { lines = h.lines ++ (l ∷ []) } }
unfolding read_line in_section
read_body_line fs f h l hl = let n = body_opens_none l.text l hl in rw (n.1, n.0, hl)

read_header :
    (fs : List File) (f : File) (o : Option Hunk) (t : Text)
    → starts "@@" t ≡ true
    → hunk_header t ≡ t
    → read_line record { files = fs; cur = some f; hunk = o } t ≡ record {
      files = fs;
      cur = some (with_hunk f o);
      hunk = some record { header = t; lines = [] };
    }
unfolding read_line in_section flush_hunk
read_header fs f o t ht hh = rw (header_opens_hunk t ht, ht, hh)

read_lines-append :
    (p : Parser) (xs ys : List Text) → read_lines p (xs ++ ys) ≡ read_lines (read_lines p xs) ys
unfolding read_lines
read_lines-append p [] ys = refl
read_lines-append p (x ∷ xs) ys = read_lines-append (read_line p x) xs ys

read_body :
    (fs : List File) (f : File) (h : Hunk) (ls : List Line)
    → All IsBodyLine ls
    → read_lines record { files = fs; cur = some f; hunk = some h } (map (λ l. l.text) ls)
      ≡ record { files = fs; cur = some f; hunk = some record h { lines = h.lines ++ ls } }
unfolding read_lines
read_body fs f h [] k = rw (append-nil h.lines)
read_body fs f h (l ∷ ls) (hl, k) =
    ap (λ p. read_lines p (map (λ m. m.text) ls)) (read_body_line fs f h l hl)
    ∙ read_body fs f (record h { lines = h.lines ++ (l ∷ []) }) ls k
    ∙ rw (append_assoc h.lines (l ∷ []) ls)

-- The file whose hunks are those of `f`, the open one and more.
abbrev more_hunks : File → Option Hunk → List Hunk → File
more_hunks f o hs = let g = with_hunk f o in record g { hunks = g.hunks ++ hs }

read_hunks :
    (fs : List File) (f : File) (o : Option Hunk) (hs : List Hunk)
    → All IsHunk hs
    → flush_hunk (read_lines record { files = fs; cur = some f; hunk = o } (hunk_lines hs))
      ≡ record { files = fs; cur = some (more_hunks f o hs); hunk = none }
unfolding read_lines flush_hunk hunk_lines
read_hunks fs f none [] k = rw (append-nil f.hunks)
read_hunks fs f (some h) [] k = rw (append-nil (f.hunks ++ (h ∷ [])))
read_hunks fs f o (h ∷ hs) ((ht, hh, hl), k) =
    ap (λ p. flush_hunk (read_lines p (map (λ m. m.text) h.lines ++ hunk_lines hs)))
      (read_header fs f o h.header ht hh)
    ∙ ap flush_hunk (read_lines-append _ (map (λ m. m.text) h.lines) (hunk_lines hs))
    ∙ ap (λ p. flush_hunk (read_lines p (hunk_lines hs)))
        (read_body fs (with_hunk f o) record { header = h.header; lines = [] } h.lines hl)
    ∙ read_hunks fs (with_hunk f o) (some h) hs k
    ∙ rw (append_assoc (with_hunk f o).hunks (h ∷ []) hs)

-- Reading the hunks git prints for a file, then ending the section, adds exactly those hunks to
-- the file, in order and with every line, and leaves the files before it as they were.
pub hunks_read :
    (fs : List File) (f : File) (hs : List Hunk)
    → All IsHunk hs
    → (flush_file
        (read_lines record { files = fs; cur = some f; hunk = none } (hunk_lines hs))).files
      ≡ fs ++ (record f { hunks = f.hunks ++ hs } ∷ [])
unfolding flush_file
hunks_read fs f hs k = rw (read_hunks fs f none hs k)
