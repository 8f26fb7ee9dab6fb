-- ===== src/Artifacts/Managing.antt =====
-- `Rename`, `Delete` and `Sweep` of internal/artifact/service.go.
use kamacu.Common.{
  ℕ, Bool, not, ◌&&◌, ◌||◌, List, String, Text, str_eq, if◌then◌else◌, leb, ◌==◌, is_some, find,
  update_where, delete_where, count, trim_space,
}
use kamacu.Artifacts.{
  Artifact, UploadRow, Store, not_found, rejected, Answer, gave, failed, is_valid_title,
  is_artifact, is_upload, put_title, get,
}
use kamacu.Artifacts.Receiving.{is_receiving}

abbrev pub is_swept : ℕ → List Artifact → UploadRow → Bool
is_swept now artifacts u =
    leb u.expires_at now
    || not (str_eq u.expected_revision "")
      && not (is_some (find (λ a. str_eq a.id u.artifact_id) artifacts))

module _ {F : Type 0} where
  -- `Rename`.
  unfoldable pub rename : ℕ → String → Text → Store F → Store F × Answer Artifact
  rename task id title s =
      let t = record s {
        artifacts = update_where (is_artifact task id) (put_title (trim_space title)) s.artifacts;
      } in
      if not (is_valid_title (trim_space title))
      then (s, failed rejected)
      else if count (is_artifact task id) s.artifacts == 0
      then (s, failed not_found)
      else (t, get task id t)

  -- `Delete`; the revisions go with their artifact.
  unfoldable pub delete : ℕ → String → Store F → Store F × Answer (Unit {0})
  delete task id s =
      if count (is_artifact task id) s.artifacts == 0 then (s, failed not_found) else (
        record s {
          artifacts = delete_where (is_artifact task id) s.artifacts;
          revisions = delete_where (λ r. str_eq r.1 id) s.revisions;
          uploads = delete_where (λ u. u.task_id == task && str_eq u.artifact_id id) s.uploads;
        },
        gave tt,
      )

  abbrev pub keeps_upload : Store F → String → Bool
  keeps_upload s name =
      is_some
        (find (λ u. is_upload name u && u.uploaded && str_eq u.published_revision "") s.uploads)
      || is_receiving name s

  abbrev pub keeps_revision : Store F → String → Bool
  keeps_revision s name = is_some (find (λ r. str_eq r.0 name) s.revisions)

  -- `Sweep`, with the file system obeying.
  unfoldable pub sweep : ℕ → Store F → Store F
  sweep now s =
      let t : Store F = record s { uploads = delete_where (is_swept now s.artifacts) s.uploads } in
      record t {
        upload_files = delete_where (λ f. not (keeps_upload t f.0)) t.upload_files;
        revision_dirs = delete_where (λ d. not (keeps_revision t d.0)) t.revision_dirs;
      }
