-- ===== src/Artifacts/Capacity.antt =====
-- No task has more than 20 artifacts, whatever is called on internal/artifact/service.go.
use kamacu.Common.{
  ℕ, ◌≤◌, ◌≡◌, refl, sym, subst, Bool, true, false, not, ◌&&◌, ◌||◌, Option, some, List, [], ◌∷◌,
  ◌++◌, String, Text, str_eq, leb, ◌==◌, is_some, find, update_where, delete_where, count,
  count-append, count-update_where_le, Bool-cases, Option-cases, inl, inr, ◌⊎◌, arith, trim_space,
}
use kamacu.Artifacts.{
  Artifact, UploadRow, Store, Answer, gave, failed, max_artifacts, artifact_of, is_artifact,
  is_upload_of, is_named, put_revision, put_title, is_valid_title, is_upload,
}
use kamacu.Artifacts.Receiving.{begin, receive, received, expected_of}
use kamacu.Artifacts.Finalizing.{is_expected, publish_artifact, publish, finalize}
use kamacu.Artifacts.Managing.{rename, delete, sweep}

pub Answer-cases :
    {A : Type 0} (r : Answer A) → ((e : _) × (r ≡ failed e)) ⊎ ((a : A) × (r ≡ gave a))
Answer-cases (failed e) = inl (e, refl)
Answer-cases (gave a) = inr (a, refl)

abbrev pub IsBounded : List Artifact → Type 0
IsBounded rows = (task : ℕ) → count (artifact_of task) rows ≤ 20

-- The calls of the service, in any order and at any time; `received` answers any `receive`.
pub data Call {F : Type 0} (s : Store F) : Store F → Type 0 where
  begins :
      (has_task : ℕ → Bool) (now : ℕ) (new_artifact new_upload token_hash : String) (task : ℕ)
      (artifact_id : String) (title filename : Text) (size : ℕ)
      → Call s
          (begin has_task now new_artifact new_upload token_hash task artifact_id title filename
            size s).0
  receives : (now : ℕ) (id token_hash : String) → Call s (receive now id token_hash s).0
  has_received :
      (now : ℕ) (u : UploadRow) (bytes : Text) (intact : Bool)
      → Call s (received now u bytes intact s).0
  finalizes :
      (extract : Text → Text → Option F) (now task : ℕ) (id revision : String)
      → Call s (finalize extract now task id revision s).0
  renames : (task : ℕ) (id : String) (title : Text) → Call s (rename task id title s).0
  deletes : (task : ℕ) (id : String) → Call s (delete task id s).0
  sweeps : (now : ℕ) → Call s (sweep now s)

pub data Calls {F : Type 0} (s : Store F) : Store F → Type 0 where
  start : Calls s s
  then_call : {t u : Store F} → Calls s t → Call t u → Calls s u

count-delete_where :
    {A : Type 0} (p r : A → Bool) (xs : List A) → count p (delete_where r xs) ≤ count p xs
count-delete_where p r [] = omega arith
count-delete_where p r (x ∷ xs) = ground (arith, count-delete_where p r xs)

count_one : (p : Artifact → Bool) (a : Artifact) → count p (a ∷ []) ≤ 1
count_one p a = ground arith

-- A new artifact of a task that has fewer.
append-IsBounded :
    (rows : List Artifact) (a : Artifact)
    → leb max_artifacts (count (artifact_of a.task_id) rows) ≡ false
    → IsBounded rows
    → IsBounded (rows ++ a ∷ [])
append-IsBounded rows a room h task = elim (Bool-cases (a.task_id == task)) [
  | inl e ↦
      let same : a.task_id ≡ task = ground (arith, e) in
      let fewer : leb max_artifacts (count (artifact_of task) rows) ≡ false =
        subst (λ t. leb max_artifacts (count (artifact_of t) rows) ≡ false) same room in
      ground (
        arith,
        count-append (artifact_of task) rows (a ∷ []),
        count_one (artifact_of task) a,
        fewer,
      )
  | inr e ↦ ground (arith, count-append (artifact_of task) rows (a ∷ []), h task, e)
]

update-IsBounded :
    (r : Artifact → Bool) (f : Artifact → Artifact) (rows : List Artifact)
    → ((x : Artifact) → (f x).task_id ≡ x.task_id)
    → IsBounded rows
    → IsBounded (update_where r f rows)
update-IsBounded r f rows same h task = omega (
  arith,
  h task,
  count-update_where_le (artifact_of task) r f rows (λ x _ k. ground (arith, same x, k)),
)

delete-IsBounded :
    (r : Artifact → Bool) (rows : List Artifact) → IsBounded rows → IsBounded (delete_where r rows)
delete-IsBounded r rows h task = omega (arith, h task, count-delete_where (artifact_of task) r rows)

module _ {F : Type 0} where
  publish_artifact-IsBounded :
      (now : ℕ) (u : UploadRow) (task : ℕ) (revision : String) (s : Store F) (rows : List Artifact)
      → IsBounded s.artifacts
      → publish_artifact now u task revision s ≡ gave rows
      → IsBounded rows
  publish_artifact-IsBounded now u task revision s rows h e =
      let made : Artifact = record {
        id = u.artifact_id;
        task_id = task;
        title = u.title;
        revision = revision;
        created_at = now;
        updated_at = now;
      } in
      let full = leb max_artifacts (count (artifact_of task) s.artifacts) in
      elim (Bool-cases (str_eq u.expected_revision "")) [
        | inl b ↦ elim (Bool-cases full) [
          | inl k ↦ absurd (ground (arith, e, b, k))
          | inr k ↦
              elim (Bool-cases (is_some (find (λ a. str_eq a.id u.artifact_id) s.artifacts))) [
                | inl t ↦ absurd (ground (arith, e, b, k, t))
                | inr t ↦
                    let same : s.artifacts ++ made ∷ [] ≡ rows = ground (arith, e, b, k, t) in
                    subst IsBounded same (append-IsBounded s.artifacts made k h)
              ]
        ]
        | inr b ↦ elim (Bool-cases (count (is_expected task u) s.artifacts == 0)) [
          | inl k ↦ absurd (ground (arith, e, b, k))
          | inr k ↦
              let same : update_where (is_expected task u) (put_revision revision now) s.artifacts
                  ≡ rows =
                ground (arith, e, b, k) in
              subst IsBounded same (
                update-IsBounded (is_expected task u) (put_revision revision now) s.artifacts
                  (λ x. refl) h)
        ]
      ]

  publish-IsBounded :
      (now : ℕ) (u : UploadRow) (task : ℕ) (revision : String) (tree : F) (s : Store F)
      → IsBounded s.artifacts
      → IsBounded (publish now u task revision tree s).0.artifacts
  publish-IsBounded now u task revision tree s h =
      elim (Answer-cases (publish_artifact now u task revision s)) [
        | inl (e, k) ↦
            let same : s ≡ (publish now u task revision tree s).0 = ground (arith, k) in
            subst (λ t. IsBounded t.artifacts) same h
        | inr (rows, k) ↦
            let same : rows ≡ (publish now u task revision tree s).0.artifacts =
              ground (arith, k) in
            subst IsBounded same (publish_artifact-IsBounded now u task revision s rows h k)
      ]

  -- Finalizing changes nothing, or publishes an upload that was not published before.
  pub finalize_shape :
      (extract : Text → Text → Option F) (now task : ℕ) (id revision : String) (s : Store F)
      → ((finalize extract now task id revision s).0 ≡ s)
        ⊎ ((u : UploadRow) × (tree : F) × (find (is_upload_of task id) s.uploads ≡ some u)
            × (str_eq u.published_revision "" ≡ true)
            × (finalize extract now task id revision s ≡ publish now u task revision tree s))
  unfolding finalize
  finalize_shape extract now task id revision s =
      elim (Option-cases (find (is_upload_of task id) s.uploads)) [
        | inl e ↦ inl (ground (arith, e))
        | inr (u, e) ↦
            elim (Bool-cases
              (str_eq u.published_revision "" && not (leb u.expires_at now) && u.uploaded)) [
                | inr k ↦ inl (ground (arith, e, k))
                | inl k ↦ elim (Option-cases (find (is_named id) s.upload_files)) [
                  | inl f ↦ inl (ground (arith, e, k, f))
                  | inr ((name, bytes), f) ↦ elim (Option-cases (extract bytes u.filename)) [
                    | inl x ↦ inl (ground (arith, e, k, f, x))
                    | inr (tree, x) ↦
                        inr (u, tree, e, ground (arith, k), ground (arith, e, k, f, x))
                  ]
                ]
              ]
      ]

  finalize-IsBounded :
      (extract : Text → Text → Option F) (now task : ℕ) (id revision : String) (s : Store F)
      → IsBounded s.artifacts
      → IsBounded (finalize extract now task id revision s).0.artifacts
  finalize-IsBounded extract now task id revision s h =
      elim (finalize_shape extract now task id revision s) [
        | inl e ↦ subst (λ t. IsBounded t.artifacts) (sym e) h
        | inr (u, tree, _, _, e) ↦
            subst (λ r. IsBounded r.0.artifacts) (sym e)
              (publish-IsBounded now u task revision tree s h)
      ]

  begin-artifacts :
      (has_task : ℕ → Bool) (now : ℕ) (new_artifact new_upload token_hash : String) (task : ℕ)
      (artifact_id : String) (title filename : Text) (size : ℕ) (s : Store F)
      → (begin has_task now new_artifact new_upload token_hash task artifact_id title filename size
          s).0.artifacts
        ≡ s.artifacts
  unfolding begin
  begin-artifacts has_task now new_artifact new_upload token_hash task artifact_id title filename
        size s =
      elim (Answer-cases (expected_of task artifact_id title s)) [
        | inl (e, h) ↦ ground (arith, h)
        | inr ((expected, kept), h) ↦ ground (arith, h)
      ]

  receive-artifacts :
      (now : ℕ) (id token_hash : String) (s : Store F)
      → (receive now id token_hash s).0.artifacts ≡ s.artifacts
  unfolding receive
  receive-artifacts now id token_hash s = elim (Option-cases (find (is_upload id) s.uploads)) [
    | inl h ↦ ground (arith, h)
    | inr (u, h) ↦ ground (arith, h)
  ]

  received-artifacts :
      (now : ℕ) (u : UploadRow) (bytes : Text) (intact : Bool) (s : Store F)
      → (received now u bytes intact s).0.artifacts ≡ s.artifacts
  unfolding received
  received-artifacts now u bytes intact s = ground arith

  rename-IsBounded :
      (task : ℕ) (id : String) (title : Text) (s : Store F)
      → IsBounded s.artifacts
      → IsBounded (rename task id title s).0.artifacts
  unfolding rename
  rename-IsBounded task id title s h =
      elim (Bool-cases
        (not (is_valid_title (trim_space title)) || count (is_artifact task id) s.artifacts == 0)) [
          | inl k ↦
              let same : s ≡ (rename task id title s).0 = ground (arith, k) in
              subst (λ t. IsBounded t.artifacts) same h
          | inr k ↦
              let f = put_title (trim_space title) in
              let same : update_where (is_artifact task id) f s.artifacts
                  ≡ (rename task id title s).0.artifacts =
                ground (arith, k) in
              subst IsBounded same
                (update-IsBounded (is_artifact task id) f s.artifacts (λ x. refl) h)
        ]

  delete_call-IsBounded :
      (task : ℕ) (id : String) (s : Store F)
      → IsBounded s.artifacts
      → IsBounded (delete task id s).0.artifacts
  unfolding delete
  delete_call-IsBounded task id s h =
      elim (Bool-cases (count (is_artifact task id) s.artifacts == 0)) [
        | inl k ↦
            let same : s ≡ (delete task id s).0 = ground (arith, k) in
            subst (λ t. IsBounded t.artifacts) same h
        | inr k ↦
            let same : delete_where (is_artifact task id) s.artifacts
                ≡ (delete task id s).0.artifacts =
              ground (arith, k) in
            subst IsBounded same (delete-IsBounded (is_artifact task id) s.artifacts h)
      ]

  Call-IsBounded : {s t : Store F} → Call s t → IsBounded s.artifacts → IsBounded t.artifacts
  unfolding sweep
  Call-IsBounded {s} (begins has_task now a u hash task id title filename size) h =
      subst IsBounded (sym (begin-artifacts has_task now a u hash task id title filename size s)) h
  Call-IsBounded {s} (receives now id hash) h =
      subst IsBounded (sym (receive-artifacts now id hash s)) h
  Call-IsBounded {s} (has_received now u bytes intact) h =
      subst IsBounded (sym (received-artifacts now u bytes intact s)) h
  Call-IsBounded {s} (finalizes extract now task id revision) h =
      finalize-IsBounded extract now task id revision s h
  Call-IsBounded {s} (renames task id title) h = rename-IsBounded task id title s h
  Call-IsBounded {s} (deletes task id) h = delete_call-IsBounded task id s h
  Call-IsBounded (sweeps now) h = h

  -- Where no task, and not the Scratchpad either, has more than 20 artifacts, none ever has, whatever is
  -- called in whatever order, uploads that began together included.
  pub Calls-IsBounded : {s t : Store F} → Calls s t → IsBounded s.artifacts → IsBounded t.artifacts
  Calls-IsBounded start h = h
  Calls-IsBounded (then_call calls c) h = Call-IsBounded c (Calls-IsBounded calls h)
