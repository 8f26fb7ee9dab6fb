-- ===== src/Artifacts/Finalizing.antt =====
-- `Finalize` of internal/artifact/service.go: an upload becomes a revision of its artifact.
use kamacu.Common.{
  ℕ, Bool, not, ◌&&◌, Option, none, some, List, [], ◌∷◌, ◌++◌, String, Text, str_eq, if◌then◌else◌,
  leb, ◌==◌, is_some, find, update_where, count,
}
use kamacu.Artifacts.{
  Artifact, UploadRow, Store, not_found, conflict, unauthorized, rejected, storage, Answer, gave,
  failed, max_artifacts, artifact_of, is_artifact, is_upload, is_upload_of, mark_published,
  put_revision, is_named, get,
}
use kamacu.Artifacts.Receiving.{remove_file}

abbrev pub with_revision : String → Answer Artifact → Answer Artifact
with_revision revision (gave a) = gave (record a { revision = revision })
with_revision revision (failed e) = failed e

-- The artifact as it was when the upload began.
abbrev pub is_expected : ℕ → UploadRow → Artifact → Bool
is_expected task u a = is_artifact task u.artifact_id a && str_eq a.revision u.expected_revision

module _ {F : Type 0} where
  -- The statement of the transaction that makes or moves the artifact.
  abbrev pub publish_artifact : ℕ → UploadRow → ℕ → String → Store F → Answer (List Artifact)
  publish_artifact now u task revision s =
      if str_eq u.expected_revision ""
      then (if leb max_artifacts (count (artifact_of task) s.artifacts)
          then failed rejected
          else if is_some (find (λ a. str_eq a.id u.artifact_id) s.artifacts)
          then failed storage
          else gave (
              s.artifacts
              ++ record {
                id = u.artifact_id;
                task_id = task;
                title = u.title;
                revision = revision;
                created_at = now;
                updated_at = now;
              }
                ∷ []))
      else let at : Artifact → Bool = is_expected task u in
        if count at s.artifacts == 0
        then failed conflict
        else gave (update_where at (put_revision revision now) s.artifacts)

  -- The transaction and what follows it.
  abbrev pub publish : ℕ → UploadRow → ℕ → String → F → Store F → Store F × Answer Artifact
  publish now u task revision tree s = elim (publish_artifact now u task revision s) [
    | failed e ↦ (s, failed e)
    | gave rows ↦
        let t = remove_file u.id (record s {
          artifacts = rows;
          revisions = s.revisions ++ (revision, u.artifact_id) ∷ [];
          uploads = update_where (is_upload u.id) (mark_published revision) s.uploads;
          revision_dirs = s.revision_dirs ++ (revision, tree) ∷ [];
        }) in
        (t, get task u.artifact_id t)
  ]

  -- `Finalize`. A directory of a revision that is not committed is removed again.
  unfoldable pub finalize :
      (Text → Text → Option F) → ℕ → ℕ → String → String → Store F → Store F × Answer Artifact
  finalize extract now task id revision s = elim (find (is_upload_of task id) s.uploads) [
    | none ↦ (s, failed not_found)
    | some u ↦
        if not (str_eq u.published_revision "")
        then (s, with_revision u.published_revision (get task u.artifact_id s))
        else if leb u.expires_at now
        then (s, failed unauthorized)
        else if not u.uploaded
        then (s, failed rejected)
        else elim (find (is_named id) s.upload_files) [
          | none ↦ (s, failed rejected)
          | some (_, bytes) ↦ elim (extract bytes u.filename) [
            | none ↦ (s, failed rejected)
            | some tree ↦ publish now u task revision tree s
          ]
        ]
  ]
