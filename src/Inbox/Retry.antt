-- ===== src/Inbox/Retry.antt =====
-- A retried request of internal/inbox/service.go.
use kamacu.Common.{
  find, find-append, find-update_where, update_where, ℕ, ◌≡◌, refl, ap, sym, subst, ◌∙◌, Bool, true,
  false, none, some, List, [], ◌∷◌, ◌++◌, arith, String, Text, if◌then◌else◌, str_eq_iff,
  text_eq_self, ==_iff, inl, inr, Bool-cases, Option-cases,
}
use kamacu.Inbox.{Question, Identity, Create, World, Inbox, told, created, existing}
use kamacu.Inbox.Rows.{has_id, row_of}
use kamacu.Inbox.Requests.{Checked-cases, ok, ◌>>◌, valid, validate}
use kamacu.Inbox.Service.{create, create_locked, reconcile, same_request, pending_of, new_question}
use kamacu.Inbox.Writes.{
  Write, edits, expires, closes, inserts, reopens, Writes, done, next, Writes-trans, SameRequest,
  reconcile-Writes,
}
use kamacu.Inbox.Calls.{Served, Served-Writes}

same_request_new :
    (now : ℕ) (id : String) (who : Identity) (c : Create) (kind : String)
    → same_request who c.key (new_question now id who kind c) ≡ true
same_request_new now id who c kind = ground (
  arith,
  (==_iff who.task_id who.task_id).1 refl,
  (str_eq_iff who.session_id who.session_id).1 refl,
  text_eq_self c.key,
)

-- The first row of a request stays the first, under its id.
abbrev Requested : Identity → Text → String → List Question → Type 0
Requested who key id rows =
    (y : Question) × (find (same_request who key) rows ≡ some y) × (y.id ≡ id)

update-Requested :
    (who : Identity) (key : Text) (p : Question → Bool) (f : Question → Question)
    (rows : List Question) (x : Question)
    → ((z : Question) → (f z).id ≡ z.id)
    → ((z : Question) → SameRequest z (f z))
    → find (same_request who key) rows ≡ some x
    → Requested who key x.id (update_where p f rows)
update-Requested who key p f rows x ids keys found = (
  (if p x then f x else x),
  find-update_where (same_request who key) p f rows
        (λ z. ground (arith, (keys z).0, (keys z).1, (keys z).2))
      ∙ rw found refl,
  elim (Bool-cases (p x)) [ inl h ↦ rw h (ids x) | inr h ↦ rw h refl ],
)

Write-request :
    {a b : List Question} (who : Identity) (key : Text) (x : Question)
    → Write a b
    → find (same_request who key) a ≡ some x
    → Requested who key x.id b
Write-request {a} {b} who key x (edits p f h e) found =
    subst (Requested who key x.id) (sym e)
      (update-Requested who key p f a x (λ z. (h z).0) (λ z. (h z).6) found)
Write-request {a} {b} who key x (expires p f h _ e) found =
    subst (Requested who key x.id) (sym e)
      (update-Requested who key p f a x (λ z. (h z).0) (λ z. (h z).4) found)
Write-request {a} {b} who key x (closes id _ f _ _ h e) found =
    subst (Requested who key x.id) (sym e)
      (update-Requested who key (has_id id) f a x (λ z. (h z).0) (λ z. (h z).4) found)
Write-request {a} {b} who key x (inserts q _ _ _ e) found =
    subst (Requested who key x.id) (sym e)
      (x, find-append (same_request who key) a (q ∷ []) ∙ rw found refl, refl)
Write-request {a} {b} who key x (reopens id _ _ f _ _ _ h e) found =
    subst (Requested who key x.id) (sym e)
      (update-Requested who key (has_id id) f a x (λ z. (h z).0) (λ z. (h z).3) found)

Writes-request :
    {a b : List Question} (who : Identity) (key : Text) (x : Question)
    → Writes a b
    → find (same_request who key) a ≡ some x
    → Requested who key x.id b
Writes-request who key x done found = (x, found, refl)
Writes-request who key x (next ws v) found =
    let (y, fy, ey) = Writes-request who key x ws found in
    let (z, fz, ez) = Write-request who key y v fy in (z, fz, ez ∙ ey)

module _ {T : Type 0} where
  -- What a request that created a question met, and what it left.
  record Created (w : World T) (now : ℕ) (id : String) (who : Identity) (c : Create) (kind : String)
      (s t : Inbox T) (q : Question) : Type 0 where
    fine : (valid w.session_of who >> validate c) ≡ ok tt
    none_yet : find (same_request who c.key) (reconcile w now s).rows ≡ none
    made : t.rows ≡ (reconcile w now s).rows ++ new_question now id who kind c ∷ []

  created_met :
      (w : World T) (now : ℕ) (id : String) (who : Identity) (c : Create) (kind : String)
      (s t : Inbox T) (q : Question)
      → create w now id who c kind s ≡ (t, told created q)
      → Created w now id who c kind s t q
  unfolding create create_locked reconcile
  created_met w now id who c kind s t q h =
      let rows = (reconcile w now s).rows in
      elim (Bool-cases s.terminal_managed) [
        | inl m ↦ absurd (ground (arith, h, m))
        | inr m ↦ elim (Checked-cases (valid w.session_of who >> validate c)) [
          | inl (e, v) ↦ absurd (ground (arith, h, m, v))
          | inr (_, v) ↦ elim (Option-cases (find (same_request who c.key) rows)) [
            | inr (r, e) ↦ absurd (ground (arith, h, m, v, e))
            | inl e ↦ elim (Option-cases (find (pending_of who.session_id) rows)) [
              | inr (r, p) ↦ absurd (ground (arith, h, m, v, e, p))
              | inl p ↦ record { fine = v; none_yet = e; made = ground (arith, h, m, v, e, p) }
            ]
          ]
        ]
      ]

  -- The row that was made is the first of its request.
  made_there :
      (w : World T) (now : ℕ) (id : String) (who : Identity) (c : Create) (kind : String)
      (s t : Inbox T) (q : Question)
      → Created w now id who c kind s t q
      → find (same_request who c.key) t.rows ≡ some (new_question now id who kind c)
  made_there w now id who c kind s t q m =
      let new = new_question now id who kind c in
      let p = same_request who c.key in
      ap (find p) m.made
      ∙ find-append p (reconcile w now s).rows (new ∷ [])
      ∙ rw (m.none_yet, same_request_new now id who c kind) refl

  -- A request may be retried: where creating made a question, under a UUID that was new, then after
  -- any sequence of calls, also when it was answered, dismissed or has expired, creating with the
  -- same key, by the same task and session, with whatever other content and UUID, tells the row of
  -- that very id as existing and does no more than the reconciliation it begins with. The session
  -- has to be valid still, the new content too, and the terminal monitor not in charge.
  pub create_again :
      (w w' : World T) (now later : ℕ) (id other : String) (who : Identity) (c c' : Create)
      (kind kind' : String) (s t u : Inbox T) (q : Question)
      → row_of id s.rows ≡ none
      → create w now id who c kind s ≡ (t, told created q)
      → Served t u
      → u.terminal_managed ≡ false
      → c'.key ≡ c.key
      → (valid w'.session_of who >> validate c') ≡ ok tt
      → (r : Question) × (r.id ≡ id)
        × (create w' later other who c' kind' u ≡ (reconcile w' later u, told existing r))
  unfolding create create_locked
  create_again w w' now later id other who c c' kind kind' s t u q fresh h calls free key fine =
      let m = created_met w now id who c kind s t q h in
      let ws = Writes-trans (Served-Writes calls) (reconcile-Writes w' later u) in
      let (r, there, same) =
        Writes-request who c.key (new_question now id who kind c) ws
          (made_there w now id who c kind s t q m) in
      let again : find (same_request who c'.key) (reconcile w' later u).rows ≡ some r =
        subst (λ k. find (same_request who k) (reconcile w' later u).rows ≡ some r) (sym key)
          there in
      (r, same, ground (arith, free, fine, again))
