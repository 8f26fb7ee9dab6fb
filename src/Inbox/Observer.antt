-- ===== src/Inbox/Observer.antt =====
-- internal/inbox/observer.go, `prepareCompletion` of completion.go and `FinishNotification` of
-- notifications.go.
use Prim.Native.String.{◌++◌ as append_text}
use kamacu.Common.{
  update_where, ℕ, ◌+◌, Bool, true, false, not, ◌&&◌, ◌||◌, Option, none, some, List, [], ◌∷◌,
  String, str_eq, if◌then◌else◌, ◌==◌, text_eq, map,
}
use kamacu.Inbox.{
  unanswered, Choice, Question, Identity, Create, storage, Outcome, existing_pending, Reply,
  refused, told, World, Inbox, is_pending, is_answered,
}
use kamacu.Inbox.Rows.{has_id}
use kamacu.Inbox.Requests.{completion_options, mem_string}
use kamacu.Inbox.Service.{transition, create_locked, report, pending_of}
use kamacu.Inbox.Answering.{is_observed}

abbrev pub same_options : List Choice → List Choice → Bool
same_options [] [] = true
same_options (a ∷ xs) (b ∷ ys) = str_eq a.id b.id && text_eq a.label b.label && same_options xs ys
same_options _ _ = false

-- Whether the observed message differs from the row that holds it.
unfoldable pub is_changed : Question → Create → Bool
is_changed q c = not (
    str_eq q.completion_task_status c.completion_task_status
    && text_eq q.question c.question
    && text_eq q.summary c.summary
    && text_eq q.abstract_text c.abstract_text
    && text_eq q.context c.context
    && str_eq q.delivery_mode c.delivery_mode
    && q.evidence_revision == c.evidence_revision
    && q.input_generation == c.input_generation
    && same_options q.options c.options)

abbrev pub is_existing_pending : Outcome → Bool
is_existing_pending existing_pending = true
is_existing_pending _ = false

-- The refreshed row: its revision grows where the message has changed.
abbrev pub refresh_row : ℕ → Bool → Create → Question → Question
refresh_row now changed c q = record q {
  revision = if changed then q.revision + 1 else q.revision;
  origin = "observer";
  delivery_mode = c.delivery_mode;
  evidence_revision = c.evidence_revision;
  input_generation = c.input_generation;
  summary = c.summary;
  abstract_text = c.abstract_text;
  context = c.context;
  question = c.question;
  options = c.options;
  completion_task_status = c.completion_task_status;
  updated_at = now;
}

abbrev pub observed_of : String → Question → Bool
observed_of session q = pending_of session q && is_observed q

abbrev pub is_unsettled : Question → Bool
is_unsettled q =
    is_observed q
    && is_answered q.status
    && not (mem_string q.reason ("exit" ∷ "move_to_review" ∷ "move_to_done" ∷ []))
    && mem_string q.delivery_status ("" ∷ "attempting" ∷ [])

abbrev pub supersede_row : ℕ → Question → Question
supersede_row now q = record q {
  status = unanswered;
  reason = "superseded";
  hidden = false;
  revision = q.revision + 1;
  updated_at = now;
}

abbrev pub delivery_row : String → Question → Question
delivery_row status q = record q { delivery_status = status }

abbrev pub hide_row : Bool → Question → Question
hide_row hide q = record q { hidden = hide }

module _ {T : Type 0} where
  -- What `Observe` and `prepareCompletion` put into the request; `none` where the task is gone.
  unfoldable pub observed_request :
      World T → Identity → Create → String → String → ℕ → ℕ → Inbox T → Option Create
  observed_request w who c kind mode revision input s =
      let seen = record c {
        origin = "observer";
        delivery_mode = mode;
        evidence_revision = revision;
        input_generation = input;
      } in
      let filled : String × String → Create = λ row. record seen {
        options = completion_options who.task_id row.0 row.1 (map (λ o. o.id) c.options);
        completion_task_status = row.1;
      } in
      if not (str_eq kind "completion")
      then some seen
      else if who.task_id == 0
      then some (filled ("", ""))
      else elim (w.task_row s.tasks who.task_id) [ none ↦ none | some row ↦ some (filled row) ]

  unfoldable pub refresh : ℕ → Create → Outcome → Question → Inbox T → Inbox T × Reply
  refresh now c o q s =
      let changed = is_changed q c in
      let fresh = record s {
        rows = update_where (has_id q.id) (refresh_row now changed c) s.rows;
      } in
      if is_existing_pending o || not (is_pending q.status)
      then (s, told o q)
      else if is_observed q && not changed
      then (s, told o q)
      else (fresh, report o q.id fresh)

  abbrev pub refresh_told : ℕ → Create → Inbox T × Reply → Inbox T × Reply
  refresh_told now c (s, refused e) = (s, refused e)
  refresh_told now c (s, told o q) = refresh now c o q s

  unfoldable pub observe :
      World T → ℕ → String → Identity → Create → String → String → ℕ → ℕ → Inbox T → Inbox T × Reply
  observe w now id who c kind mode revision input s =
      elim (observed_request w who c kind mode revision input s) [
        | none ↦ (s, refused storage)
        | some seen ↦ refresh_told now seen (create_locked w now id who seen kind s)
      ]

  unfoldable pub hide_observed : String → Bool → Inbox T → Inbox T
  hide_observed session hide s = record s {
    rows = update_where (observed_of session) (hide_row hide) s.rows;
  }

  unfoldable pub supersede_observed : ℕ → String → Inbox T → Inbox T
  supersede_observed now session s = record s {
    rows = update_where (observed_of session) (supersede_row now) s.rows;
  }

  -- The answer is false where the status is none that may be recorded.
  unfoldable pub record_delivery : String → String → Inbox T → Inbox T × Bool
  record_delivery id status s =
      let written = record s {
        rows = update_where (λ q. has_id id q && is_observed q) (delivery_row status) s.rows;
      } in
      if mem_string status ("submitted" ∷ "uncertain" ∷ "attempting" ∷ [])
      then (written, true)
      else (s, false)

  unfoldable pub recover_deliveries : Inbox T → Inbox T
  recover_deliveries s = record s {
    rows = update_where is_unsettled (delivery_row "uncertain") s.rows;
  }

  unfoldable pub use_terminal_monitoring : Inbox T → Inbox T
  use_terminal_monitoring s = record s { terminal_managed = true }

  -- `result` goes to a column that only displays read.
  unfoldable pub finish_notification : ℕ → String → String → Inbox T → Inbox T
  unfolding transition
  finish_notification now id state s =
      transition now id (append_text "execution_" state) ""
        (update_where (λ q. has_id id q && str_eq q.origin "notification")
          (λ q. record (delivery_row state q) { updated_at = now }) s.rows)
        s
