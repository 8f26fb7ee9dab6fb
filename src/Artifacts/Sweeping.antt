-- ===== src/Artifacts/Sweeping.antt =====
-- What `Sweep` of internal/artifact/service.go leaves in place.
use kamacu.Common.{
  ℕ, ◌≡◌, refl, Bool, true, false, not, ltb, ◌&&◌, ◌||◌, List, [], ◌∷◌, String, str_eq, str_eq_iff,
  is_some, any, find, delete_where, find-delete_where, Bool-cases, inl, inr, arith,
}
use kamacu.Artifacts.{Artifact, UploadRow, Store, is_upload, is_named}
use kamacu.Artifacts.Receiving.{is_receiving}
use kamacu.Artifacts.Managing.{is_swept, keeps_upload, keeps_revision, sweep}

-- The row of an upload whose bytes are complete and which is not published.
abbrev is_complete : String → UploadRow → Bool
is_complete name u = is_upload name u && u.uploaded && str_eq u.published_revision ""

-- It can still be published: unexpired, and of a new artifact or of one that is there.
abbrev pub is_publishable : ℕ → List Artifact → String → UploadRow → Bool
is_publishable now artifacts name u =
    is_upload name u
    && u.uploaded
    && str_eq u.published_revision ""
    && ltb now u.expires_at
    && (str_eq u.expected_revision "" || any (λ a. str_eq a.id u.artifact_id) artifacts)

find-any : (p : Artifact → Bool) (xs : List Artifact) → any p xs ≡ true → is_some (find p xs) ≡ true
find-any p [] h = absurd (ground (arith, h))
find-any p (x ∷ xs) h = ground (arith, h, find-any p xs)

publishable_not_swept :
    (now : ℕ) (artifacts : List Artifact) (name : String) (u : UploadRow)
    → is_publishable now artifacts name u ≡ true
    → (is_complete name u && not (is_swept now artifacts u)) ≡ true
publishable_not_swept now artifacts name u h =
    ground (arith, h, find-any (λ a. str_eq a.id u.artifact_id) artifacts)

and_first : (a b : Bool) → (a && not b) ≡ true → a ≡ true
and_first a b h = ground (arith, h)

and_not : (a b : Bool) → (a && not b) ≡ true → b ≡ false
and_not a b h = ground (arith, h)

or_rest : (a b : Bool) → (a || b) ≡ true → a ≡ false → b ≡ true
or_rest a b h k = ground (arith, h, k)

kept_row :
    (now : ℕ) (artifacts : List Artifact) (name : String) (rows : List UploadRow)
    → any (is_publishable now artifacts name) rows ≡ true
    → is_some (find (is_complete name) (delete_where (is_swept now artifacts) rows)) ≡ true
kept_row now artifacts name [] h = absurd (ground (arith, h))
kept_row now artifacts name (u ∷ rows) h = elim (Bool-cases (is_publishable now artifacts name u)) [
  | inl p ↦
      let kept = publishable_not_swept now artifacts name u p in
      let stays : is_swept now artifacts u ≡ false = and_not (is_complete name u) _ kept in
      let found : is_complete name u ≡ true = and_first (is_complete name u) _ kept in
      rw (stays, found) refl
  | inr p ↦
      let rest = kept_row now artifacts name rows (or_rest _ _ h p) in
      elim (Bool-cases (is_swept now artifacts u)) [
        | inl s ↦ rw s rest
        | inr s ↦ elim (Bool-cases (is_complete name u)) [
          | inl c ↦ rw (s, c) refl
          | inr c ↦ rw (s, c) rest
        ]
      ]
]

kept_name :
    {A : Type 0} (keeps : String → Bool) (name : String) (files : List (String × A))
    → keeps name ≡ true
    → find (is_named name) (delete_where (λ f. not (keeps f.0)) files) ≡ find (is_named name) files
kept_name keeps name files h =
    find-delete_where (is_named name) (λ f. not (keeps f.0)) files
      (λ f e. let same : f.0 ≡ name = (str_eq_iff f.0 name).0 e in rw same (rw h refl))

module _ {F : Type 0} where
  -- Sweeping never takes bytes away from under an upload: neither while they are received nor until a
  -- complete upload is published or expires, or the artifact that it revises is gone.
  pub sweep_keeps_upload :
      (now : ℕ) (name : String) (s : Store F)
      → (is_receiving name s || any (is_publishable now s.artifacts name) s.uploads) ≡ true
      → find (is_named name) (sweep now s).upload_files ≡ find (is_named name) s.upload_files
  unfolding sweep
  sweep_keeps_upload now name s h =
      let t : Store F = record s { uploads = delete_where (is_swept now s.artifacts) s.uploads } in
      let keeps : keeps_upload t name ≡ true = elim (Bool-cases (is_receiving name s)) [
        | inl r ↦ ground (arith, r)
        | inr r ↦ ground (arith, kept_row now s.artifacts name s.uploads (ground (arith, h, r)))
      ] in
      kept_name (keeps_upload t) name s.upload_files keeps

  -- Nor a directory of a revision that an artifact has, the current one or an earlier.
  pub sweep-keeps_revision :
      (now : ℕ) (name : String) (s : Store F)
      → keeps_revision s name ≡ true
      → find (is_named name) (sweep now s).revision_dirs ≡ find (is_named name) s.revision_dirs
  unfolding sweep
  sweep-keeps_revision now name s h = kept_name (keeps_revision s) name s.revision_dirs h
