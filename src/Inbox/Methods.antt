-- ===== src/Inbox/Methods.antt =====
-- `Answer` and the observer's methods of internal/inbox as sequences of writes.
use kamacu.Common.{
  find-some, find-update_where, update_where, ℕ, ◌≡◌, refl, ap, sym, subst, ◌∙◌, Bool, true, not,
  ◌&&◌, ◌||◌, Option, none, some, List, [], ◌∷◌, arith, if◌then◌else◌, String, str_eq, str_eq_iff,
  Text, ◌⊎◌, inl, inr, Bool-cases, Option-cases,
}
use kamacu.Inbox.{
  Question, Identity, Create, World, Inbox, is_pending, Reply, refused, told, Outcome,
}
use kamacu.Inbox.Rows.{has_id, row_of}
use kamacu.Inbox.Requests.{Checked-cases, ok, completion_target, mem_string}
use kamacu.Inbox.Service.{reconcile, owned, create_locked}
use kamacu.Inbox.Answering.{
  Verdict, outdated, resolved, saves, is_observed, verdict, asked, prepare, queue_row, save,
  conclude, answer, answer_row, is_completion,
}
use kamacu.Inbox.Observer.{
  is_changed, is_existing_pending, refresh, refresh_row, refresh_told, observe, observed_request,
  hide_observed, hide_row, supersede_observed, supersede_row, record_delivery, recover_deliveries,
  is_unsettled, delivery_row, finish_notification, observed_of,
}
use kamacu.Inbox.Writes.{
  edits, closes, expires, Writes, done, next, Writes-trans, Writes-eq, reconcile-Writes,
  create_locked-Writes,
}

-- A row that is found by an id has it.
pub row_of-id :
    (id : String) (rows : List Question) (q : Question) → row_of id rows ≡ some q → q.id ≡ id
row_of-id id rows q h = (str_eq_iff q.id id).0 (find-some (has_id id) rows q h)

pub verdict_pending :
    (q : Question) (revision : ℕ) (text : Text) (option : String) (chosen : Text)
    → verdict q revision text option ≡ ok (saves chosen)
    → is_pending q.status ≡ true
unfolding verdict
verdict_pending q revision text option chosen h = ground (arith, h)

module _ {T : Type 0} where
  pub asked_found :
      (w : World T) (who : Option Identity) (id : String) (s : Inbox T) (q : Question)
      → asked w who id s ≡ ok q
      → row_of id s.rows ≡ some q
  unfolding owned
  asked_found w none id s q h = ground (arith, h)
  asked_found w (some who) id s q h = ground (arith, h)

  -- What precedes the answer in its transaction: nothing in the table, or a queued notification.
  pub prepare_rows :
      (w : World T) (who : Option Identity) (q : Question) (option : String) (s r : Inbox T)
      → prepare w who q option s ≡ ok r
      → (r.rows ≡ s.rows) ⊎ (r.rows ≡ update_where (has_id q.id) queue_row s.rows)
  unfolding prepare
  prepare_rows w who q option s r h =
      let target : Option String = if is_completion q then completion_target option else none in
      elim (Option-cases target) [
        | inr (t, e) ↦ inl (ground (arith, h, e))
        | inl e ↦ elim (Bool-cases (str_eq q.origin "notification")) [
          | inl n ↦ inr (ground (arith, h, e, n))
          | inr n ↦ inl (ground (arith, h, e, n))
        ]
      ]

  pub saves-Writes :
      (now : ℕ) (who : Option Identity) (option : String) (text : Text) (q : Question)
      (s r : Inbox T)
      → row_of q.id s.rows ≡ some q
      → is_pending q.status ≡ true
      → (r.rows ≡ s.rows) ⊎ (r.rows ≡ update_where (has_id q.id) queue_row s.rows)
      → Writes s.rows (save now who q option text r).rows
  unfolding save
  saves-Writes now who option text q s r found open_ (inl e) = next done (
      closes q.id q (answer_row now who option text) found open_
        (λ x. (refl, refl, refl, omega arith, (refl, refl, refl)))
        (ap (update_where (has_id q.id) (answer_row now who option text)) e))
  saves-Writes now who option text q s r found open_ (inr e) =
      let queued : row_of q.id r.rows ≡ some (if has_id q.id q then queue_row q else q) =
        ap (row_of q.id) e
        ∙ find-update_where (has_id q.id) (has_id q.id) queue_row s.rows (λ x. refl)
        ∙ rw found in
      next
        (next done (
          edits (has_id q.id) queue_row
            (λ x. (refl, refl, refl, refl, refl, omega arith, (refl, refl, refl))) e))
        (closes q.id _ (answer_row now who option text) queued (ground (arith, open_))
          (λ x. (refl, refl, refl, omega arith, (refl, refl, refl))) refl)

  pub conclude-Writes :
      (w : World T) (now : ℕ) (who : Option Identity) (option : String) (s : Inbox T) (q : Question)
      (v : Verdict)
      → row_of q.id s.rows ≡ some q
      → ((text : Text) → v ≡ saves text → is_pending q.status ≡ true)
      → Writes s.rows (conclude w now who option s q v).0.rows
  unfolding conclude
  conclude-Writes w now who option s q outdated found open_ = done
  conclude-Writes w now who option s q resolved found open_ = done
  conclude-Writes w now who option s q (saves text) found open_ =
      elim (Checked-cases (prepare w who q option s)) [
        | inl (e, h) ↦ Writes-eq done (ground (arith, h))
        | inr (r, h) ↦
            Writes-eq
              (saves-Writes now who option text q s r found (open_ text refl)
                (prepare_rows w who q option s r h))
              (ground (arith, h))
      ]

  pub answer-Writes :
      (w : World T) (now : ℕ) (who : Option Identity) (id : String) (revision : ℕ) (text : Text)
      (option : String) (s : Inbox T)
      → Writes s.rows (answer w now who id revision text option s).0.rows
  unfolding answer
  answer-Writes w now who id revision text option s =
      let ready = reconcile w now s in
      let before = reconcile-Writes w now s in
      elim (Checked-cases (asked w who id ready)) [
        | inl (e, h) ↦ Writes-eq before (ground (arith, h))
        | inr (q, h) ↦ elim (Checked-cases (verdict q revision text option)) [
          | inl (e, k) ↦ Writes-eq before (ground (arith, h, k))
          | inr (v, k) ↦
              let found = asked_found w who id ready q h in
              let own : row_of q.id ready.rows ≡ some q =
                subst (λ x. row_of x ready.rows ≡ some q) (sym (row_of-id id ready.rows q found))
                  found in
              Writes-eq
                (Writes-trans before (
                  conclude-Writes w now who option ready q v own
                    (λ chosen e. verdict_pending q revision text option chosen (k ∙ ap ok e))))
                (ground (arith, h, k))
        ]
      ]

  refresh-Writes :
      (now : ℕ) (c : Create) (o : Outcome) (q : Question) (s : Inbox T)
      → Writes s.rows (refresh now c o q s).0.rows
  unfolding refresh
  refresh-Writes now c o q s =
      let writes : Bool =
        not (is_existing_pending o || not (is_pending q.status))
        && not (is_observed q && not (is_changed q c)) in
      elim (Bool-cases writes) [
        | inr h ↦ Writes-eq done (ground (arith, h))
        | inl h ↦ next done (
            edits (has_id q.id) (refresh_row now (is_changed q c) c)
              (λ x. (refl, refl, refl, refl, refl, ground arith, (refl, refl, refl)))
              (ground (arith, h)))
      ]

  refresh_told-Writes :
      (now : ℕ) (c : Create) (s : Inbox T) (out : Inbox T × Reply)
      → Writes s.rows out.0.rows
      → Writes s.rows (refresh_told now c out).0.rows
  refresh_told-Writes now c s (t, refused e) ws = ws
  refresh_told-Writes now c s (t, told o q) ws = Writes-trans ws (refresh-Writes now c o q t)

  pub observe-Writes :
      (w : World T) (now : ℕ) (id : String) (who : Identity) (c : Create) (kind mode : String)
      (revision input : ℕ) (s : Inbox T)
      → row_of id s.rows ≡ none
      → Writes s.rows (observe w now id who c kind mode revision input s).0.rows
  unfolding observe
  observe-Writes w now id who c kind mode revision input s fresh =
      elim (Option-cases (observed_request w who c kind mode revision input s)) [
        | inl h ↦ Writes-eq done (ground (arith, h))
        | inr (seen, h) ↦
            Writes-eq
              (refresh_told-Writes now seen s (create_locked w now id who seen kind s)
                (create_locked-Writes w now id who seen kind s fresh))
              (ground (arith, h))
      ]

  pub hide_observed-Writes :
      (session : String) (hide : Bool) (s : Inbox T)
      → Writes s.rows (hide_observed session hide s).rows
  unfolding hide_observed
  hide_observed-Writes session hide s = next done (
      edits (observed_of session) (hide_row hide)
        (λ x. (refl, refl, refl, refl, refl, omega arith, (refl, refl, refl))) refl)

  pub supersede_observed-Writes :
      (now : ℕ) (session : String) (s : Inbox T)
      → Writes s.rows (supersede_observed now session s).rows
  unfolding supersede_observed
  supersede_observed-Writes now session s = next done (
      expires (observed_of session) (supersede_row now)
        (λ x. (refl, refl, refl, omega arith, (refl, refl, refl))) (λ x h. ground (arith, h)) refl)

  pub record_delivery-Writes :
      (id status : String) (s : Inbox T) → Writes s.rows (record_delivery id status s).0.rows
  unfolding record_delivery
  record_delivery-Writes id status s =
      elim (Bool-cases (mem_string status ("submitted" ∷ "uncertain" ∷ "attempting" ∷ []))) [
        | inr h ↦ Writes-eq done (rw h refl)
        | inl h ↦ next done (
            edits (λ q. has_id id q && is_observed q) (delivery_row status)
              (λ x. (refl, refl, refl, refl, refl, omega arith, (refl, refl, refl))) (rw h refl))
      ]

  pub recover_deliveries-Writes : (s : Inbox T) → Writes s.rows (recover_deliveries s).rows
  unfolding recover_deliveries
  recover_deliveries-Writes s = next done (
      edits is_unsettled (delivery_row "uncertain")
        (λ x. (refl, refl, refl, refl, refl, omega arith, (refl, refl, refl))) refl)

  pub finish_notification-Writes :
      (now : ℕ) (id state : String) (s : Inbox T)
      → Writes s.rows (finish_notification now id state s).rows
  unfolding finish_notification
  finish_notification-Writes now id state s =
      next done
        (edits _ _ (λ x. (refl, refl, refl, refl, refl, omega arith, (refl, refl, refl))) refl)
