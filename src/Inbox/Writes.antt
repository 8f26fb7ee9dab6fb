-- ===== src/Inbox/Writes.antt =====
-- What the methods of internal/inbox may do to the table: five kinds of write, and each method as a
-- sequence of them.
use kamacu.Common.{
  find, find-update_where, update_where, count, ℕ, ◌≤◌, ◌<◌, text_eq, ◌≡◌, refl, sym, subst, ◌∙◌,
  Bool, true, false, not, ◌&&◌, ◌||◌, none, some, List, [], ◌∷◌, ◌++◌, arith, String, str_eq, ◌==◌,
  ◌⊎◌, inl, inr, Bool-cases, Option-cases, is_some,
}
use kamacu.Inbox.{
  Question, Identity, Create, World, Inbox, is_pending, is_answered, is_unanswered, is_dismissed,
}
use kamacu.Inbox.Rows.{has_id, row_of}
use kamacu.Inbox.Service.{
  is_stale, expire, reconcile, pending_of, same_request, new_question, create_locked, create, poll,
  owned, dismiss, reopen, reopen_row, beat_row, dismiss_row, acknowledge_row, acknowledge, fetch,
}
use kamacu.Inbox.Requests.{Checked-cases, ◌>>◌, valid, validate}

-- What a request that is retried is known by.
abbrev pub SameRequest : Question → Question → Type 0
SameRequest x y =
    (y.task_id ≡ x.task_id)
    × (y.created_session_id ≡ x.created_session_id)
    × (y.request_key ≡ x.request_key)

-- An edit leaves alone who owns a row, how it stands and what was answered; its revision may grow.
abbrev pub IsEdit : Question → Question → Type 0
IsEdit x y =
    (y.id ≡ x.id)
    × (y.session_id ≡ x.session_id)
    × (y.status ≡ x.status)
    × (y.answer ≡ x.answer)
    × (y.answer_source ≡ x.answer_source)
    × (x.revision ≤ y.revision)
    × SameRequest x y

-- A row that closes keeps its owner, is pending no more and keeps its revision or a later one.
abbrev pub IsClosing : Question → Question → Type 0
IsClosing x y =
    (y.id ≡ x.id)
    × (y.session_id ≡ x.session_id)
    × (is_pending y.status ≡ false)
    × (x.revision ≤ y.revision)
    × SameRequest x y

-- The rows of the same request as a row.
abbrev pub same_key : Question → Question → Bool
same_key q x =
    x.task_id == q.task_id
    && (str_eq x.created_session_id q.created_session_id && text_eq x.request_key q.request_key)

pub data Write (a b : List Question) : Type 0 where
  edits :
      (p : Question → Bool) (f : Question → Question)
      → ((x : Question) → IsEdit x (f x))
      → b ≡ update_where p f a
      → Write a b
  -- All pending rows with a property close.
  expires :
      (p : Question → Bool) (f : Question → Question)
      → ((x : Question) → IsClosing x (f x))
      → ((x : Question) → p x ≡ true → is_pending x.status ≡ true)
      → b ≡ update_where p f a
      → Write a b
  -- One pending row closes.
  closes :
      (id : String) (q : Question) (f : Question → Question)
      → row_of id a ≡ some q
      → is_pending q.status ≡ true
      → ((x : Question) → IsClosing x (f x))
      → b ≡ update_where (has_id id) f a
      → Write a b
  -- A new pending row, for a session that has none and a request that has none.
  inserts :
      (q : Question)
      → row_of q.id a ≡ none
      → find (pending_of q.session_id) a ≡ none
      → find (same_key q) a ≡ none
      → b ≡ a ++ q ∷ []
      → Write a b
  -- A row that was not answered goes to a session that has no pending one, under a new revision.
  reopens :
      (id : String) (q : Question) (session : String) (f : Question → Question)
      → row_of id a ≡ some q
      → is_answered q.status ≡ false
      → count (pending_of session) a ≡ 0
      → ((x : Question)
          → ((f x).id ≡ x.id)
            × ((f x).session_id ≡ session)
            × (x.revision < (f x).revision)
            × SameRequest x (f x))
      → b ≡ update_where (has_id id) f a
      → Write a b

pub data Writes (a : List Question) : List Question → Type 0 where
  done : Writes a a
  next : {b c : List Question} → Writes a b → Write b c → Writes a c

pub Writes-trans : {a b c : List Question} → Writes a b → Writes b c → Writes a c
Writes-trans ws done = ws
Writes-trans ws (next vs v) = next (Writes-trans ws vs) v

pub Writes-eq : {a b c : List Question} → Writes a b → c ≡ b → Writes a c
Writes-eq {a} {b} {c} ws e = subst (λ x. Writes a x) (sym e) ws

module _ {T : Type 0} where
  pub reconcile-Writes :
      (w : World T) (now : ℕ) (s : Inbox T) → Writes s.rows (reconcile w now s).rows
  unfolding reconcile
  reconcile-Writes w now s = next done (
      expires (is_stale w) (expire now) (λ x. (refl, refl, refl, omega arith, (refl, refl, refl)))
        (λ x h. ground (arith, h)) refl)

  -- One write behind those of `reconcile`, or none.
  after_reconcile :
      (w : World T) (now : ℕ) (s t : Inbox T)
      → (t.rows ≡ (reconcile w now s).rows) ⊎ Write (reconcile w now s).rows t.rows
      → Writes s.rows t.rows
  after_reconcile w now s t (inl e) = Writes-eq (reconcile-Writes w now s) e
  after_reconcile w now s t (inr v) = next (reconcile-Writes w now s) v

  pub dismiss-Writes :
      (w : World T) (now : ℕ) (id : String) (revision : ℕ) (s : Inbox T)
      → Writes s.rows (dismiss w now id revision s).0.rows
  unfolding dismiss
  dismiss-Writes w now id revision s =
      let rows = (reconcile w now s).rows in
      after_reconcile w now s (dismiss w now id revision s).0
        (elim (Option-cases (row_of id rows)) [
          | inl e ↦ inl (ground (arith, e))
          | inr (q, e) ↦ elim (Bool-cases (revision == q.revision && is_pending q.status)) [
            | inl h ↦ inr (
                closes id q (dismiss_row now) e (ground (arith, h))
                  (λ x. (refl, refl, refl, omega arith, (refl, refl, refl))) (ground (arith, e, h)))
            | inr h ↦ inl (ground (arith, e, h))
          ]
        ])

  pub poll-Writes :
      (w : World T) (now : ℕ) (who : Identity) (id : String) (heartbeat : Bool) (s : Inbox T)
      → Writes s.rows (poll w now who id heartbeat s).0.rows
  unfolding poll
  poll-Writes w now who id heartbeat s =
      after_reconcile w now s (poll w now who id heartbeat s).0
        (elim (Checked-cases (owned w who id (reconcile w now s))) [
          | inl (e, h) ↦ inl (ground (arith, h))
          | inr (q, h) ↦ elim (Bool-cases (heartbeat && is_pending q.status)) [
            | inl k ↦ inr (
                edits (has_id id) (beat_row now)
                  (λ x. (refl, refl, refl, refl, refl, omega arith, (refl, refl, refl)))
                  (ground (arith, h, k)))
            | inr k ↦ inl (ground (arith, h, k))
          ]
        ])

  pub reopen-Writes :
      (w : World T) (now : ℕ) (who : Identity) (id : String) (revision : ℕ) (user_requested : Bool)
      (s : Inbox T)
      → Writes s.rows (reopen w now who id revision user_requested s).0.rows
  unfolding reopen
  reopen-Writes w now who id revision user_requested s =
      let rows = (reconcile w now s).rows in
      let t = (reopen w now who id revision user_requested s).0 in
      let may : Question → Bool = λ q.
        q.task_id == who.task_id
        && q.revision == revision
        && not (is_pending q.status && str_eq q.session_id who.session_id)
        && (is_unanswered q.status || is_dismissed q.status && user_requested)
        && count (pending_of who.session_id) rows == 0 in
      elim (Bool-cases s.terminal_managed) [
        | inl h ↦ Writes-eq done (ground (arith, h))
        | inr h ↦ elim (Checked-cases (valid w.session_of who)) [
          | inl (e, v) ↦ Writes-eq done (ground (arith, h, v))
          | inr (_, v) ↦ after_reconcile w now s t (elim (Option-cases (row_of id rows)) [
            | inl e ↦ inl (ground (arith, h, v, e))
            | inr (q, e) ↦ elim (Bool-cases (may q)) [
              | inl m ↦ inr (
                  reopens id q who.session_id (reopen_row now who) e (ground (arith, m))
                    (ground (arith, m)) (λ x. (refl, refl, omega arith, (refl, refl, refl)))
                    (ground (arith, h, v, e, m)))
              | inr m ↦ inl (ground (arith, h, v, e, m))
            ]
          ])
        ]
      ]

  pub acknowledge-Writes :
      (w : World T) (now : ℕ) (who : Identity) (id : String) (revision : ℕ) (s : Inbox T)
      → Writes s.rows (acknowledge w now who id revision s).0.rows
  unfolding acknowledge
  acknowledge-Writes w now who id revision s =
      let ready = reconcile w now s in
      let t = (acknowledge w now who id revision s).0 in
      let may : Question → Bool = λ q.
        not (
          not (q.task_id == who.task_id)
          || (not (str_eq q.session_id who.session_id) && not (is_answered q.status)))
        && q.revision == revision
        && not (is_pending q.status)
        && not (is_some q.acknowledged_at) in
      after_reconcile w now s t (elim (Checked-cases (valid w.session_of who >> fetch id ready)) [
        | inl (e, h) ↦ inl (ground (arith, h))
        | inr (q, h) ↦ elim (Bool-cases (may q)) [
          | inl m ↦ inr (
              edits (has_id id) (acknowledge_row now)
                (λ x. (refl, refl, refl, refl, refl, omega arith, (refl, refl, refl)))
                (ground (arith, h, m)))
          | inr m ↦ inl (ground (arith, h, m))
        ]
      ])

  pub row_of-reconcile :
      (w : World T) (now : ℕ) (id : String) (s : Inbox T)
      → row_of id s.rows ≡ none
      → row_of id (reconcile w now s).rows ≡ none
  unfolding reconcile
  row_of-reconcile w now id s fresh =
      find-update_where (has_id id) (is_stale w) (expire now) s.rows (λ x. refl) ∙ rw fresh

  pub create_locked-Writes :
      (w : World T) (now : ℕ) (id : String) (who : Identity) (c : Create) (kind : String)
      (s : Inbox T)
      → row_of id s.rows ≡ none
      → Writes s.rows (create_locked w now id who c kind s).0.rows
  unfolding create_locked
  create_locked-Writes w now id who c kind s fresh =
      let ready = reconcile w now s in
      let t = (create_locked w now id who c kind s).0 in
      elim (Checked-cases (valid w.session_of who >> validate c)) [
        | inl (e, h) ↦ Writes-eq done (ground (arith, h))
        | inr (_, h) ↦
            after_reconcile w now s t
              (elim (Option-cases (find (same_request who c.key) ready.rows)) [
                | inr (q, e) ↦ inl (ground (arith, h, e))
                | inl e ↦ elim (Option-cases (find (pending_of who.session_id) ready.rows)) [
                  | inr (q, p) ↦ inl (ground (arith, h, e, p))
                  | inl p ↦ inr (
                      inserts (new_question now id who kind c) (row_of-reconcile w now id s fresh) p
                        e (ground (arith, h, e, p)))
                ]
              ])
      ]

  pub create-Writes :
      (w : World T) (now : ℕ) (id : String) (who : Identity) (c : Create) (kind : String)
      (s : Inbox T)
      → row_of id s.rows ≡ none
      → Writes s.rows (create w now id who c kind s).0.rows
  unfolding create
  create-Writes w now id who c kind s fresh = elim (Bool-cases s.terminal_managed) [
    | inl h ↦ Writes-eq done (ground (arith, h))
    | inr h ↦ Writes-eq (create_locked-Writes w now id who c kind s fresh) (ground (arith, h))
  ]
