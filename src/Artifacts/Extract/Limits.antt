-- ===== src/Artifacts/Extract/Limits.antt =====
-- What an archive that internal/artifact/service.go extracts can hold.
use kamacu.Common.{
  ℕ, ◌+◌, ◌-◌, ◌≤◌, ◌≡◌, refl, subst, Bool, true, false, not, ◌&&◌, ◌||◌, some, List, [], ◌∷◌,
  codes, if◌then◌else◌, ltb, any, all, text_eq, length, count, Bool-cases, Option-cases, inl, inr,
  ◌⊎◌, arith,
}
use kamacu.Artifacts.Extract.Names.{is_safe, IsCleaning, valid_path-is_below, root_is_below}
use kamacu.Artifacts.Extract.{
  Typeflag, dir_entry, file_entry, other_entry, Entry, Disk, Extraction, max_extracted, entry_name,
  is_root, is_dir, valid_path, put_entry, extract_entry, extract_entries, extract_archive,
}

abbrev pub is_file_type : Typeflag → Bool
is_file_type file_entry = true
is_file_type _ = false

abbrev pub is_file : Entry → Bool
is_file e = is_file_type e.typeflag

abbrev pub file_size : Entry → ℕ
file_size e = if is_file e then e.size else 0

abbrev pub sizes : List Entry → ℕ
sizes [] = 0
sizes (e ∷ es) = file_size e + sizes es

Typeflag-cases : (t : Typeflag) → (t ≡ dir_entry) ⊎ ((t ≡ file_entry) ⊎ (t ≡ other_entry))
Typeflag-cases dir_entry = inl refl
Typeflag-cases file_entry = inr (inl refl)
Typeflag-cases other_entry = inr (inr refl)

and_right : (a b : Bool) → (a && b) ≡ true → b ≡ true
and_right a b h = ground (arith, h)

dir_no_file : (t : Typeflag) → is_dir t ≡ true → is_file_type t ≡ false
dir_no_file t h = ground (arith, h)

root_no_file : (e : Entry) → is_root e ≡ true → is_file e ≡ false
unfolding is_root
root_no_file e h =
    dir_no_file e.typeflag (and_right (text_eq (entry_name e) (codes ".")) (is_dir e.typeflag) h)

module _ {D : Type 0} (disk : Disk D) (up : IsCleaning disk.clean) where
  record IsWithin (x : Extraction D) : Type 0 where
    files_fit : x.files ≤ 1000
    total_fits : x.total ≤ max_extracted
    entries_fit : x.entries ≤ 4000

  record Took (e : Entry) (x y : Extraction D) : Type 0 where
    safe : is_safe e ≡ true
    files : y.files ≡ x.files + count is_file (e ∷ [])
    total : y.total ≡ x.total + file_size e
    entries : y.entries ≡ x.entries + 1
    within : IsWithin y

  root-Took :
      (e : Entry) (x : Extraction D)
      → IsWithin x
      → is_root e ≡ true
      → ltb 4000 (x.entries + 1) ≡ false
      → Took e x (record x { entries = x.entries + 1 })
  root-Took e x w r a =
      let not_file = root_no_file e r in
      record {
        safe = root_is_below e r;
        files = ground (arith, not_file);
        total = ground (arith, not_file);
        entries = refl;
        within = record {
          files_fit = w.files_fit;
          total_fits = w.total_fits;
          entries_fit = ground (arith, a);
        };
      }

  put_entry-Took :
      (e : Entry) (x y : Extraction D)
      → IsWithin x
      → valid_path disk.clean (entry_name e) ≡ true
      → ltb 4000 (x.entries + 1) ≡ false
      → put_entry disk (entry_name e) e (record x { entries = x.entries + 1 }) ≡ some y
      → Took e x y
  put_entry-Took e x y w v a h =
      let name = entry_name e in
      elim (Typeflag-cases e.typeflag) [
        | inl t ↦ elim (Option-cases (disk.mkdir_all x.tree name)) [
          | inl k ↦ absurd (ground (arith, h, t, k))
          | inr (tree, k) ↦
              let z : Extraction D = record x {
                seen = name ∷ x.seen;
                entries = x.entries + 1;
                tree = tree;
              } in
              let same : z ≡ y = ground (arith, h, t, k) in
              subst (Took e x) same (record {
                safe = valid_path-is_below disk.clean (entry_name e) up v;
                files = ground (arith, t);
                total = ground (arith, t);
                entries = refl;
                within = record {
                  files_fit = w.files_fit;
                  total_fits = w.total_fits;
                  entries_fit = ground (arith, a);
                };
              })
        ]
        | inr (inl t) ↦
            elim (Bool-cases (ltb 1000 (x.files + 1) || ltb (max_extracted - x.total) e.size)) [
              | inl b ↦ absurd (ground (arith, h, t, b))
              | inr b ↦ elim (Option-cases (disk.create x.tree name e.size e.content)) [
                | inl k ↦ absurd (ground (arith, h, t, b, k))
                | inr (tree, k) ↦
                    let z : Extraction D = record {
                      seen = name ∷ x.seen;
                      entries = x.entries + 1;
                      files = x.files + 1;
                      total = x.total + e.size;
                      tree = tree;
                    } in
                    let same : z ≡ y = ground (arith, h, t, b, k) in
                    subst (Took e x) same (record {
                      safe = valid_path-is_below disk.clean (entry_name e) up v;
                      files = ground (arith, t);
                      total = ground (arith, t);
                      entries = refl;
                      within = record {
                        files_fit = ground (arith, b);
                        total_fits = ground (arith, b, w.total_fits);
                        entries_fit = ground (arith, a);
                      };
                    })
              ]
            ]
        | inr (inr t) ↦ absurd (ground (arith, h, t))
      ]

  extract_entry-Took :
      (e : Entry) (x y : Extraction D) → IsWithin x → extract_entry disk e x ≡ some y → Took e x y
  unfolding extract_entry
  extract_entry-Took e x y w h =
      let name = entry_name e in
      let counted : Extraction D = record x { entries = x.entries + 1 } in
      elim (Bool-cases (ltb 4000 (x.entries + 1))) [
        | inl a ↦ absurd (ground (arith, h, a))
        | inr a ↦ elim (Bool-cases (is_root e)) [
          | inl r ↦
              let same : counted ≡ y = ground (arith, h, a, r) in
              subst (Took e x) same (root-Took e x w r a)
          | inr r ↦
              elim (Bool-cases (not (valid_path disk.clean name) || any (text_eq name) x.seen)) [
                | inl b ↦ absurd (ground (arith, h, a, r, b))
                | inr b ↦ put_entry-Took e x y w (ground (arith, b)) a (ground (arith, h, a, r, b))
              ]
        ]
      ]

  -- The loop, from anywhere.
  extract_entries-Took :
      (es : List Entry) (x y : Extraction D)
      → IsWithin x
      → extract_entries disk es x ≡ some y
      → (all is_safe es ≡ true)
        × (count is_file es + x.files ≤ 1000)
        × (sizes es + x.total ≤ max_extracted)
        × (length es + x.entries ≤ 4000)
  extract_entries-Took [] x y w h =
      (refl, omega (arith, w.files_fit), omega (arith, w.total_fits), omega (arith, w.entries_fit))
  extract_entries-Took (e ∷ es) x y w h = elim (Option-cases (extract_entry disk e x)) [
    | inl k ↦ absurd (ground (arith, h, k))
    | inr (z, k) ↦
        let t = extract_entry-Took e x z w k in
        let r = extract_entries-Took es z y t.within (ground (arith, h, k)) in
        (
          ground (arith, t.safe, r.0),
          ground (arith, t.files, r.1),
          omega (arith, t.total, r.2),
          omega (arith, t.entries, r.3),
        )
  ]

  -- Where `path.Clean` leaves `..` only in front, an archive that is extracted has at most 4000
  -- entries, no name of which is absolute or has an element `..`, so that all stay below the
  -- directory, and at most 1000 files, of 100 MB together.
  pub archive_bounded :
      (es : List Entry) (tree out : D)
      → extract_archive disk es tree ≡ some out
      → (all is_safe es ≡ true)
        × (count is_file es ≤ 1000)
        × (sizes es ≤ 100000000)
        × (length es ≤ 4000)
  unfolding extract_archive
  archive_bounded es tree out h =
      let x : Extraction D = record { seen = []; entries = 0; files = 0; total = 0; tree = tree } in
      elim (Option-cases (extract_entries disk es x)) [
        | inl k ↦ absurd (ground (arith, h, k))
        | inr (y, k) ↦
            let r =
              extract_entries-Took es x y
                (record {
                  files_fit = omega arith;
                  total_fits = omega arith;
                  entries_fit = omega arith;
                })
                k in
            (r.0, omega (arith, r.1), omega (arith, r.2), omega (arith, r.3))
      ]
