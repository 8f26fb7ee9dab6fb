-- ===== src/Artifacts/Publishing.antt =====
-- Finalizing an upload of internal/artifact/service.go twice, and two uploads for one artifact.
use kamacu.Common.{
  ℕ, ◌≡◌, refl, ap, sym, ◌∙◌, Bool, true, false, Option, some, List, [], ◌∷◌, String, Text, str_eq,
  str_eq_iff, leb, ◌==◌, find, find-some, find-update_where, update_where, count, Bool-cases,
  Option-cases, inl, inr, ◌⊎◌, arith,
}
use kamacu.Artifacts.{
  Artifact, UploadRow, Store, ArtifactError, conflict, unauthorized, rejected, gave, failed,
  is_upload_of, is_upload, is_named, put_revision, mark_published, get,
}
use kamacu.Artifacts.Finalizing.{is_expected, publish_artifact, publish, finalize}
use kamacu.Artifacts.Capacity.{Answer-cases}

-- Changing the revision of the rows that have an old one leaves none with it.
count_replaced :
    (p : Artifact → Bool) (f : Artifact → Artifact) (rows : List Artifact)
    → ((x : Artifact) → p (f x) ≡ false)
    → count p (update_where p f rows) ≡ 0
count_replaced p f [] h = refl
count_replaced p f (x ∷ rows) h = ground (arith, h x, count_replaced p f rows h)

module _ {F : Type 0} where
  finalize_unpublished :
      (extract : Text → Text → Option F) (now task : ℕ) (id revision : String) (s : Store F)
      (u : UploadRow)
      → find (is_upload_of task id) s.uploads ≡ some u
      → str_eq u.published_revision "" ≡ true
      → ((e : ArtifactError) × (finalize extract now task id revision s ≡ (s, failed e)))
        ⊎ ((tree : F) × (finalize extract now task id revision s
              ≡ publish now u task revision tree s))
  unfolding finalize
  finalize_unpublished extract now task id revision s u e p =
      elim (Bool-cases (leb u.expires_at now)) [
        | inl a ↦ inl (unauthorized, ground (arith, e, p, a))
        | inr a ↦ elim (Bool-cases u.uploaded) [
          | inr b ↦ inl (rejected, ground (arith, e, p, a, b))
          | inl b ↦ elim (Option-cases (find (is_named id) s.upload_files)) [
            | inl f ↦ inl (rejected, ground (arith, e, p, a, b, f))
            | inr ((name, bytes), f) ↦ elim (Option-cases (extract bytes u.filename)) [
              | inl x ↦ inl (rejected, ground (arith, e, p, a, b, f, x))
              | inr (tree, x) ↦ inr (tree, ground (arith, e, p, a, b, f, x))
            ]
          ]
        ]
      ]

  -- What a successful publication leaves behind.
  record Published (u : UploadRow) (task : ℕ) (revision : String) (s t : Store F) (a : Artifact)
      : Type 0 where
    marked : t.uploads ≡ update_where (is_upload u.id) (mark_published revision) s.uploads
    shown : get task u.artifact_id t ≡ gave a
    moved :
        str_eq u.expected_revision "" ≡ false
        → (now : ℕ) × (t.artifacts
            ≡ update_where (is_expected task u) (put_revision revision now) s.artifacts)

  publish-Published :
      (now : ℕ) (u : UploadRow) (task : ℕ) (revision : String) (tree : F) (s t : Store F)
      (a : Artifact)
      → publish now u task revision tree s ≡ (t, gave a)
      → Published u task revision s t a
  publish-Published now u task revision tree s t a h =
      elim (Answer-cases (publish_artifact now u task revision s)) [
        | inl (e, k) ↦ absurd (ground (arith, h, k))
        | inr (rows, k) ↦ record {
          marked = ground (arith, h, k);
          shown = ground (arith, h, k);
          moved = λ old. (
            now,
            elim (Bool-cases (count (is_expected task u) s.artifacts == 0)) [
              | inl z ↦ absurd (ground (arith, k, old, z))
              | inr z ↦ ground (arith, h, k, old, z)
            ],
          );
        }
      ]

  finalized-Published :
      (extract : Text → Text → Option F) (now task : ℕ) (id revision : String) (s t : Store F)
      (u : UploadRow) (a : Artifact)
      → find (is_upload_of task id) s.uploads ≡ some u
      → str_eq u.published_revision "" ≡ true
      → finalize extract now task id revision s ≡ (t, gave a)
      → Published u task revision s t a
  finalized-Published extract now task id revision s t u a e p h =
      elim (finalize_unpublished extract now task id revision s u e p) [
        | inl (x, k) ↦ absurd (ground (arith, h, k))
        | inr (tree, k) ↦ publish-Published now u task revision tree s t a (sym k ∙ h)
      ]

  -- Finalizing may be retried: once an upload was published under a revision, finalizing it again, at
  -- any time and even with its bytes gone, changes nothing and gives the artifact at that revision.
  pub finalize_again :
      (extract : Text → Text → Option F) (now later task : ℕ) (id revision other : String)
      (s t : Store F) (u : UploadRow) (a : Artifact)
      → find (is_upload_of task id) s.uploads ≡ some u
      → str_eq u.published_revision "" ≡ true
      → str_eq revision "" ≡ false
      → finalize extract now task id revision s ≡ (t, gave a)
      → finalize extract later task id other t ≡ (t, gave (record a { revision = revision }))
  unfolding finalize
  finalize_again extract now later task id revision other s t u a e p new_ h =
      let done_ = finalized-Published extract now task id revision s t u a e p h in
      let row : find (is_upload_of task id) t.uploads ≡ some (mark_published revision u) =
        ap (find (is_upload_of task id)) done_.marked
        ∙ find-update_where (is_upload_of task id) (is_upload u.id) (mark_published revision)
            s.uploads (λ x. refl)
        ∙ rw (e, (str_eq_iff u.id u.id).1 refl) refl in
      ground (arith, row, new_, done_.shown)

  -- No update is lost: of two unpublished uploads that were begun on the same revision of an artifact,
  -- once one is published under another revision the other cannot be; finalizing it fails and changes
  -- nothing.
  pub lost_update_refused :
      (extract : Text → Text → Option F) (now later task : ℕ) (id other revision second : String)
      (s t : Store F) (u v : UploadRow) (a : Artifact)
      → find (is_upload_of task id) s.uploads ≡ some u
      → find (is_upload_of task other) s.uploads ≡ some v
      → str_eq u.published_revision "" ≡ true
      → str_eq v.published_revision "" ≡ true
      → str_eq u.expected_revision "" ≡ false
      → str_eq revision u.expected_revision ≡ false
      → str_eq other id ≡ false
      → v.artifact_id ≡ u.artifact_id
      → v.expected_revision ≡ u.expected_revision
      → finalize extract now task id revision s ≡ (t, gave a)
      → (e : ArtifactError) × (finalize extract later task other second t ≡ (t, failed e))
  lost_update_refused extract now later task id other revision second s t u v a e f p q old new_
        apart same_id same_rev h =
      let done_ = finalized-Published extract now task id revision s t u a e p h in
      let own : u.id ≡ id =
        (str_eq_iff u.id id).0 (ground (arith, find-some (is_upload_of task id) s.uploads u e)) in
      let its : v.id ≡ other =
        (str_eq_iff v.id other).0
          (ground (arith, find-some (is_upload_of task other) s.uploads v f)) in
      let row : find (is_upload_of task other) t.uploads ≡ some v =
        ap (find (is_upload_of task other)) done_.marked
        ∙ find-update_where (is_upload_of task other) (is_upload u.id) (mark_published revision)
            s.uploads (λ x. refl)
        ∙ rw (f, its, own, apart) refl in
      let (at, moved) = done_.moved old in
      let gone : count (is_expected task u) t.artifacts ≡ 0 =
        ap (count (is_expected task u)) moved
        ∙ count_replaced (is_expected task u) (put_revision revision at) s.artifacts
            (λ x. ground (arith, new_)) in
      elim (finalize_unpublished extract later task other second t v row q) [
        | inl x ↦ x
        | inr (tree, k) ↦ (conflict, k ∙ ground (arith, old, same_id, same_rev, gone))
      ]
