-- ===== src/Artifacts.antt =====
-- internal/artifact/service.go: uploads of previews and their revisions. The database does not fail but
-- where a key is taken; `F` is the tree of a revision's directory, which `extract` makes of the bytes.
-- `now` is the clock in seconds; identifiers and tokens are those that `uuid` gave. A task id of 0 is
-- the Scratchpad.
pub mod Receiving
pub mod Finalizing
pub mod Managing
pub mod Extract
pub mod Capacity
pub mod Publishing
pub mod Sweeping
use kamacu.Common.{
  ℕ, suc, ◌+◌, Bool, true, false, not, ◌&&◌, ◌||◌, Option, none, some, List, [], ◌∷◌, ◌++◌, String,
  Text, codes, str_eq, if◌then◌else◌, ltb, leb, ◌==◌, is_some, is_nil, length, take, any, find,
  update_where, delete_where, count, trim_space, has_prefix, reverse,
}

pub record Artifact : Type 0 where
  pub id : String
  pub task_id : ℕ
  pub title : Text
  pub revision : String
  pub created_at : ℕ
  pub updated_at : ℕ

-- A row of `artifact_uploads`.
pub record UploadRow : Type 0 where
  pub id : String
  pub task_id : ℕ
  pub artifact_id : String
  pub title : Text
  pub filename : Text
  pub size_bytes : ℕ
  pub expected_revision : String
  pub token_hash : String
  pub expires_at : ℕ
  pub uploaded : Bool
  pub published_revision : String

-- The tables, with the revisions as their id and artifact, `receiving`, and the two directories.
pub record Store (F : Type 0) : Type 0 where
  pub artifacts : List Artifact
  pub uploads : List UploadRow
  pub revisions : List (String × String)
  pub receiving : List String
  pub upload_files : List (String × Text)
  pub revision_dirs : List (String × F)

pub data ArtifactError : Type 0 where
  not_found conflict unauthorized rejected storage : ArtifactError

pub data Answer (A : Type 0) : Type 0 where
  gave : A → Answer A
  failed : ArtifactError → Answer A

abbrev pub max_upload : ℕ
max_upload = 20000000

abbrev pub max_artifacts : ℕ
max_artifacts = 20

abbrev pub has_suffix : Text → Text → Bool
has_suffix s p = has_prefix (reverse s) (reverse p)

abbrev pub is_valid_title : Text → Bool
is_valid_title title = not (is_nil (trim_space title)) && leb (length title) 100

abbrev pub artifact_of : ℕ → Artifact → Bool
artifact_of task a = a.task_id == task

abbrev pub is_artifact : ℕ → String → Artifact → Bool
is_artifact task id a = str_eq a.id id && artifact_of task a

abbrev pub is_upload : String → UploadRow → Bool
is_upload id u = str_eq u.id id

abbrev pub is_upload_of : ℕ → String → UploadRow → Bool
is_upload_of task id u = is_upload id u && u.task_id == task

abbrev pub is_pending_upload : ℕ → ℕ → UploadRow → Bool
is_pending_upload task now u =
    u.task_id == task && ltb now u.expires_at && str_eq u.published_revision ""

abbrev pub mark_uploaded : UploadRow → UploadRow
mark_uploaded u = record u { uploaded = true }

abbrev pub mark_published : String → UploadRow → UploadRow
mark_published revision u = record u { published_revision = revision }

abbrev pub put_revision : String → ℕ → Artifact → Artifact
put_revision revision now a = record a { revision = revision; updated_at = now }

abbrev pub put_title : Text → Artifact → Artifact
put_title title a = record a { title = title }

abbrev pub is_named : {A : Type 0} → String → String × A → Bool
is_named name f = str_eq f.0 name

module _ {F : Type 0} where
  -- `get`.
  abbrev pub get : ℕ → String → Store F → Answer Artifact
  get task id s = elim (find (is_artifact task id) s.artifacts) [
    | none ↦ failed not_found
    | some a ↦ gave a
  ]
