-- ===== src/Examples/Uploads.antt =====
-- Runs of internal/artifact/service.go: two uploads for the same artifact, one of them complete, on a
-- file system where extracting is keeping the bytes.
use kamacu.Common.{
  split, arith, if◌then◌else◌, subst, text_eq, ◌≤◌, ◌≡◌, refl, true, some, Option, List, [], ◌∷◌,
  Text, codes, arith, all, count, length, find,
}
use kamacu.Artifacts.{Artifact, UploadRow, Store, ArtifactError, gave, failed, is_named}
use kamacu.Artifacts.Finalizing.{finalize}
use kamacu.Artifacts.Managing.{sweep}
use kamacu.Artifacts.Capacity.{start, then_call, finalizes, IsBounded, Calls-IsBounded}
use kamacu.Artifacts.Publishing.{finalize_again, lost_update_refused}
use kamacu.Artifacts.Sweeping.{sweep_keeps_upload}
use kamacu.Artifacts.Extract.{
  Entry, Disk, dir_entry, file_entry, extract_archive, extract_entry, valid_path, entry_name,
  is_root,
}
use kamacu.Artifacts.Extract.Limits.{is_file, sizes, archive_bounded}
use kamacu.Artifacts.Extract.Names.{is_safe, climbs, IsCleaning}

abbrev page : Artifact
page = record {
  id = "a";
  task_id = 3;
  title = codes "Page";
  revision = "r1";
  created_at = 5;
  updated_at = 5;
}

abbrev first_upload : UploadRow
first_upload = record {
  id = "u1";
  task_id = 3;
  artifact_id = "a";
  title = [];
  filename = codes "p.html";
  size_bytes = 2;
  expected_revision = "r1";
  token_hash = "h";
  expires_at = 900;
  uploaded = true;
  published_revision = "";
}

abbrev second_upload : UploadRow
second_upload = record first_upload { id = "u2" }

abbrev store : Store Text
store = record {
  artifacts = page ∷ [];
  uploads = first_upload ∷ second_upload ∷ [];
  revisions = ("r1", "a") ∷ [];
  receiving = [];
  upload_files = ("u1", codes "hi") ∷ ("u2", codes "ho") ∷ [];
  revision_dirs = ("r1", codes "old") ∷ [];
}

abbrev keep_bytes : Text → Text → Option Text
keep_bytes bytes filename = some bytes

store-IsBounded : IsBounded store.artifacts
store-IsBounded task = ground arith

Calls-IsBounded_example :
    IsBounded
      (finalize keep_bytes 20 3 "u2" "r3" (finalize keep_bytes 10 3 "u1" "r2" store).0).0.artifacts
Calls-IsBounded_example =
    Calls-IsBounded
      (then_call (then_call start (finalizes keep_bytes 10 3 "u1" "r2"))
        (finalizes keep_bytes 20 3 "u2" "r3"))
      store-IsBounded

abbrev new_page : Artifact
new_page = record page { revision = "r2"; updated_at = 10 }

finalize_again_example :
    finalize keep_bytes 2000 3 "u1" "r9" (finalize keep_bytes 10 3 "u1" "r2" store).0
    ≡ ((finalize keep_bytes 10 3 "u1" "r2" store).0, gave new_page)
unfolding finalize
finalize_again_example =
    finalize_again keep_bytes 10 2000 3 "u1" "r2" "r9" store
      (finalize keep_bytes 10 3 "u1" "r2" store).0 first_upload new_page refl refl refl refl

lost_update_refused_example :
    (e : ArtifactError) × (finalize keep_bytes 20 3 "u2" "r3"
        (finalize keep_bytes 10 3 "u1" "r2" store).0
      ≡ ((finalize keep_bytes 10 3 "u1" "r2" store).0, failed e))
unfolding finalize
lost_update_refused_example =
    lost_update_refused keep_bytes 10 20 3 "u1" "u2" "r2" "r3" store
      (finalize keep_bytes 10 3 "u1" "r2" store).0 first_upload second_upload new_page refl refl
      refl refl refl refl refl refl refl refl

sweep_keeps_upload_example :
    find (is_named "u1") (sweep 10 store).upload_files ≡ some ("u1", codes "hi")
sweep_keeps_upload_example = sweep_keeps_upload 10 "u1" store refl

-- A tree is the list of its names.
abbrev disk : Disk (List Text)
disk = record {
  clean = λ s. if climbs s then [] else s;
  mkdir_all = λ d name. some (name ∷ d);
  create = λ d name size content. some (name ∷ d);
  has_index = λ d. true;
}

disk-IsCleaning : IsCleaning disk.clean
unfolding split
disk-IsCleaning [] same up = absurd (ground (arith, up))
disk-IsCleaning (c ∷ s) same up =
    let cleaned : disk.clean (c ∷ s) ≡ [] = rw up refl in
    let never : text_eq [] (c ∷ s) ≡ true = subst (λ n. text_eq n (c ∷ s) ≡ true) cleaned same in
    absurd (ground (arith, never))

abbrev archive : List Entry
archive =
    record { name = codes "./"; typeflag = dir_entry; size = 0; content = [] }
    ∷ record { name = codes "./index.html"; typeflag = file_entry; size = 2; content = codes "hi" }
    ∷ []

archive_bounded_example :
    (all is_safe archive ≡ true)
    × (count is_file archive ≤ 1000)
    × (sizes archive ≤ 100000000)
    × (length archive ≤ 4000)
unfolding extract_archive extract_entry valid_path entry_name is_root split
archive_bounded_example =
    archive_bounded disk disk-IsCleaning archive [] (codes "index.html" ∷ []) refl
