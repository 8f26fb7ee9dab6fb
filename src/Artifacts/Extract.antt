-- ===== src/Artifacts/Extract.antt =====
-- `extract` of internal/artifact/service.go on an archive, and `validPath`. Reading the tar and writing
-- below the directory are the file system's: a tree `D` that grows, or refuses.
pub mod Names
pub mod Limits
use kamacu.Common.{
  ℕ, zero, suc, ◌+◌, ◌-◌, ◌≤◌, ◌≡◌, refl, ap, ◌∙◌, Bool, true, false, not, ◌&&◌, ◌||◌, Option, none,
  some, List, [], ◌∷◌, Text, codes, text_eq, if◌then◌else◌, ltb, leb, ◌==◌, is_nil, length, drop,
  any, all, has_prefix, reverse, byte_len, Bool-cases, Option-cases, inl, inr, ◌⊎◌, arith, All,
}

pub data Typeflag : Type 0 where
  dir_entry file_entry other_entry : Typeflag

-- A header, with the bytes behind it.
pub record Entry : Type 0 where
  pub name : Text
  pub typeflag : Typeflag
  pub size : ℕ
  pub content : Text

-- `path.Clean`, and the writes below the directory.
pub record Disk (D : Type 0) : Type 0 where
  pub clean : Text → Text
  pub mkdir_all : D → Text → Option D
  pub create : D → Text → ℕ → Text → Option D
  pub has_index : D → Bool

abbrev pub max_extracted : ℕ
max_extracted = 100000000

abbrev pub is_special : ℕ → Bool
is_special c = c == 92 || c == 58 || c == 0

-- `validPath`.
unfoldable pub valid_path : (Text → Text) → Text → Bool
valid_path clean name =
    not (is_nil name)
    && leb (byte_len name) 1024
    && not (any is_special name)
    && not (has_prefix name (codes "/"))
    && text_eq (clean name) name
    && not (text_eq name (codes "."))
    && not (text_eq name (codes ".."))
    && not (has_prefix name (codes "../"))

-- The loop that trims every `./` at the front.
abbrev pub trim_dots : Text → Text
trim_dots [] = []
trim_dots (c ∷ []) = c ∷ []
trim_dots (c ∷ d ∷ s) = elim (c == 46 && d == 47) [ true ↦ trim_dots s | false ↦ c ∷ d ∷ s ]

abbrev pub trim_slash : Text → Text
trim_slash s = elim (reverse s) [ [] ↦ s | c ∷ r ↦ if c == 47 then reverse r else s ]

unfoldable pub entry_name : Entry → Text
entry_name e = trim_dots (trim_slash e.name)

abbrev pub is_dir : Typeflag → Bool
is_dir dir_entry = true
is_dir _ = false

unfoldable pub is_root : Entry → Bool
unfolding entry_name
is_root e = text_eq (entry_name e) (codes ".") && is_dir e.typeflag

-- The names that were seen, `entries`, `files`, `total` and the tree.
pub record Extraction (D : Type 0) : Type 0 where
  pub seen : List Text
  pub entries : ℕ
  pub files : ℕ
  pub total : ℕ
  pub tree : D

module _ {D : Type 0} (disk : Disk D) where
  abbrev pub put_dir : Text → Extraction D → Option (Extraction D)
  put_dir name x = elim (disk.mkdir_all x.tree name) [
    | none ↦ none
    | some tree ↦ some (record x { seen = name ∷ x.seen; tree = tree })
  ]

  -- The parent is made by `create`, which refuses a name that is taken or bytes that are cut short.
  abbrev pub put_file : Text → Entry → Extraction D → Option (Extraction D)
  put_file name e x =
      if ltb 1000 (x.files + 1) || ltb (max_extracted - x.total) e.size
      then none
      else elim (disk.create x.tree name e.size e.content) [
        | none ↦ none
        | some tree ↦ some (record x {
          seen = name ∷ x.seen;
          files = x.files + 1;
          total = x.total + e.size;
          tree = tree;
        })
      ]

  abbrev pub put_entry : Text → Entry → Extraction D → Option (Extraction D)
  put_entry name e x = elim e.typeflag [
    | dir_entry ↦ put_dir name x
    | file_entry ↦ put_file name e x
    | other_entry ↦ none
  ]

  -- One round of the loop.
  unfoldable pub extract_entry : Entry → Extraction D → Option (Extraction D)
  extract_entry e x =
      let counted : Extraction D = record x { entries = x.entries + 1 } in
      if ltb 4000 (x.entries + 1)
      then none
      else if is_root e
      then some counted
      else if not (valid_path disk.clean (entry_name e)) || any (text_eq (entry_name e)) x.seen
      then none
      else put_entry (entry_name e) e counted

  abbrev pub extract_entries : List Entry → Extraction D → Option (Extraction D)
  extract_entries [] x = some x
  extract_entries (e ∷ es) x = elim (extract_entry e x) [
    | none ↦ none
    | some y ↦ extract_entries es y
  ]

  -- The whole archive, if it reads well; a directory without `index.html` is refused.
  unfoldable pub extract_archive : List Entry → D → Option D
  extract_archive es tree =
      elim (extract_entries es
        (record { seen = []; entries = 0; files = 0; total = 0; tree = tree })) [
          | none ↦ none
          | some x ↦ if disk.has_index x.tree then some x.tree else none
        ]
