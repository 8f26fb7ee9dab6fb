-- ===== src/Artifacts/Receiving.antt =====
-- Uploads of internal/artifact/service.go until their bytes are there: `Begin` and `Receive`.
use kamacu.Common.{
  ℕ, ◌+◌, Bool, false, not, ◌&&◌, ◌||◌, none, some, [], ◌∷◌, ◌++◌, String, Text, codes, str_eq,
  if◌then◌else◌, ltb, leb, ◌==◌, length, take, any, find, update_where, delete_where, count,
  trim_space,
}
use kamacu.Artifacts.{
  UploadRow, Store, not_found, unauthorized, rejected, Answer, gave, failed, max_upload,
  max_artifacts, has_suffix, is_valid_title, artifact_of, is_artifact, is_upload, is_pending_upload,
  mark_uploaded, is_named,
}

module _ {F : Type 0} where
  -- The revision that an upload replaces and the title of a new artifact.
  abbrev pub expected_of : ℕ → String → Text → Store F → Answer (String × Text)
  expected_of task artifact_id title s =
      if not (str_eq artifact_id "")
      then elim (find (is_artifact task artifact_id) s.artifacts) [
        | none ↦ failed not_found
        | some a ↦ gave (a.revision, [])
      ]
      else if not (is_valid_title (trim_space title))
      then failed rejected
      else if leb max_artifacts (count (artifact_of task) s.artifacts)
      then failed rejected
      else gave ("", trim_space title)

  -- `Begin`, with the hash of the token that it gives.
  unfoldable pub begin :
      (ℕ → Bool)
      → ℕ
      → String
      → String
      → String
      → ℕ
      → String
      → Text
      → Text
      → ℕ
      → Store F
      → Store F × Answer UploadRow
  begin has_task now new_artifact new_upload token_hash task artifact_id title filename size s =
      if not (task == 0) && not (has_task task)
      then (s, failed not_found)
      else if size == 0 || ltb max_upload size
      then (s, failed rejected)
      else if not (has_suffix filename (codes ".html"))
          && not (has_suffix filename (codes ".tar.gz"))
      then (s, failed rejected)
      else elim (expected_of task artifact_id title s) [
        | failed e ↦ (s, failed e)
        | gave (expected, kept_title) ↦
            let u : UploadRow = record {
              id = new_upload;
              task_id = task;
              artifact_id = if str_eq artifact_id "" then new_artifact else artifact_id;
              title = kept_title;
              filename = filename;
              size_bytes = size;
              expected_revision = expected;
              token_hash = token_hash;
              expires_at = now + 900;
              uploaded = false;
              published_revision = "";
            } in
            if leb max_artifacts (count (is_pending_upload task now) s.uploads)
            then (s, failed rejected)
            else (record s { uploads = s.uploads ++ u ∷ [] }, gave u)
      ]

  abbrev pub is_receiving : String → Store F → Bool
  is_receiving id s = any (λ r. str_eq r id) s.receiving

  abbrev pub write_file : String → Text → Store F → Store F
  write_file id bytes s = record s {
    upload_files = (id, bytes) ∷ delete_where (is_named id) s.upload_files;
  }

  abbrev pub remove_file : String → Store F → Store F
  remove_file id s = record s { upload_files = delete_where (is_named id) s.upload_files }

  abbrev pub end_receiving : String → Store F → Store F
  end_receiving id s = record s { receiving = delete_where (λ r. str_eq r id) s.receiving }

  -- `Receive` up to its copy, which runs without the lock: the file is empty, and the row is kept.
  unfoldable pub receive : ℕ → String → String → Store F → Store F × Answer UploadRow
  receive now id token_hash s = elim (find (is_upload id) s.uploads) [
    | none ↦ (s, failed unauthorized)
    | some u ↦
        if leb u.expires_at now || not (str_eq u.token_hash token_hash)
        then (s, failed unauthorized)
        else if u.uploaded || is_receiving id s
        then (s, failed rejected)
        else (write_file id [] (record s { receiving = id ∷ s.receiving }), gave u)
  ]

  -- Behind the copy: `bytes` is what the reader gave before it ended or, by `intact`, broke.
  unfoldable pub received : ℕ → UploadRow → Text → Bool → Store F → Store F × Answer (Unit {0})
  received now u bytes intact s =
      let copied = take (u.size_bytes + 1) bytes in
      if not intact || not (length copied == u.size_bytes) || leb u.expires_at now
      then (end_receiving u.id (remove_file u.id s), failed rejected)
      else if count (is_upload u.id) s.uploads == 0
      then (end_receiving u.id (remove_file u.id s), failed not_found)
      else (
        end_receiving u.id (
            write_file u.id copied
              (record s { uploads = update_where (is_upload u.id) mark_uploaded s.uploads })),
        gave tt,
      )
