-- ===== src/Inbox/Service.antt =====
-- The methods of internal/inbox/service.go that change the table, with `moveCompletedTask` of
-- completion.go. `now` is the one reading of the clock in milliseconds, `id` the new UUID.
use kamacu.Common.{
  find, update_where, count, ℕ, ◌+◌, Bool, false, not, ◌&&◌, ◌||◌, none, some, List, [], ◌∷◌, ◌++◌,
  String, str_eq, Text, if◌then◌else◌, ◌==◌, is_some, length, text_eq,
}
use kamacu.Inbox.{
  pending, dismissed, unanswered, Question, Identity, Create, HistoryEvent, invalid, not_found,
  owner, conflict, storage, Outcome, created, existing, existing_pending, stale_revision,
  already_resolved, reopened, now_is, Reply, refused, told, World, Inbox, is_pending, is_answered,
  is_unanswered, is_dismissed,
}
use kamacu.Inbox.Rows.{has_id, row_of}
use kamacu.Inbox.Requests.{
  Checked, ok, err, ◌>>=◌, ◌>>◌, guard, validate, valid, completion_options,
}

abbrev pub expire : ℕ → Question → Question
expire now q = record q { status = unanswered; reason = "session_stopped"; updated_at = now }

abbrev pub same_request : Identity → Text → Question → Bool
same_request who key q =
    q.task_id == who.task_id
    && (str_eq q.created_session_id who.session_id && text_eq q.request_key key)

abbrev pub pending_of : String → Question → Bool
pending_of session q = str_eq q.session_id session && is_pending q.status

abbrev pub new_question : ℕ → String → Identity → String → Create → Question
new_question now id who kind c =
    let plain = str_eq c.origin "" in
    record {
      id = id;
      task_id = who.task_id;
      session_id = who.session_id;
      created_session_id = who.session_id;
      request_key = c.key;
      abstract_text = c.abstract_text;
      summary = c.summary;
      context = c.context;
      question = c.question;
      options = c.options;
      status = pending;
      reason = "";
      answer = [];
      answer_source = "";
      revision = 1;
      created_at = now;
      updated_at = now;
      heartbeat_at = now;
      acknowledged_at = none;
      kind = kind;
      origin = if plain then "agent" else c.origin;
      hidden = false;
      delivery_mode = if plain then "legacy" else c.delivery_mode;
      delivery_status = "";
      evidence_revision = c.evidence_revision;
      input_generation = c.input_generation;
      completion_task_status = c.completion_task_status;
    }

abbrev pub beat_row : ℕ → Question → Question
beat_row now q = record q { heartbeat_at = now }

abbrev pub dismiss_row : ℕ → Question → Question
dismiss_row now q = record q { status = dismissed; updated_at = now }

abbrev pub acknowledge_row : ℕ → Question → Question
acknowledge_row now q = record q { acknowledged_at = some now }

abbrev pub reopen_row : ℕ → Identity → Question → Question
reopen_row now who q = record q {
  session_id = who.session_id;
  status = pending;
  reason = "";
  revision = q.revision + 1;
  updated_at = now;
  heartbeat_at = now;
  acknowledged_at = none;
}

module _ {T : Type 0} where
  -- `transitionWith`: the statement and its history commit together.
  unfoldable pub transition : ℕ → String → String → String → List Question → Inbox T → Inbox T
  transition now id kind session rows s = record s {
    rows = rows;
    events =
        s.events
        ++ record { question_id = id; kind = kind; session_id = session; created_at = now } ∷ [];
  }

  -- The pending questions of sessions that are not live.
  abbrev pub is_stale : World T → Question → Bool
  is_stale w q =
      is_pending q.status
      && not (str_eq q.origin "notification")
      && not (w.session_of q.session_id).live

  abbrev pub stale_events : World T → ℕ → List Question → List HistoryEvent
  stale_events w now [] = []
  stale_events w now (q ∷ qs) =
      if is_stale w q
      then record {
        question_id = q.id;
        kind = "session_stopped";
        session_id = q.session_id;
        created_at = now;
      }
        ∷ stale_events w now qs
      else stale_events w now qs

  -- `reconcile`: each stale question expires, with its history.
  unfoldable pub reconcile : World T → ℕ → Inbox T → Inbox T
  reconcile w now s = record s {
    rows = update_where (is_stale w) (expire now) s.rows;
    events = s.events ++ stale_events w now s.rows;
  }

  abbrev pub fetch : String → Inbox T → Checked Question
  fetch id s = elim (row_of id s.rows) [ none ↦ err not_found | some q ↦ ok q ]

  -- What a method tells of the row it wrote.
  abbrev pub report : Outcome → String → Inbox T → Reply
  report o id s = elim (row_of id s.rows) [ none ↦ refused not_found | some q ↦ told o q ]

  abbrev pub insert_question : ℕ → String → Question → Inbox T → Inbox T
  insert_question now id q s = transition now id "created" q.session_id (s.rows ++ q ∷ []) s

  abbrev pub report_status : String → Inbox T → Reply
  report_status id s = elim (row_of id s.rows) [
    | none ↦ refused not_found
    | some q ↦ told (now_is q.status) q
  ]

  -- `createLocked`.
  unfoldable pub create_locked :
      World T → ℕ → String → Identity → Create → String → Inbox T → Inbox T × Reply
  unfolding transition
  create_locked w now id who c kind s =
      let ready = reconcile w now s in
      let made = insert_question now id (new_question now id who kind c) ready in
      elim (valid w.session_of who >> validate c) [
        | err e ↦ (s, refused e)
        | ok _ ↦ elim (find (same_request who c.key) ready.rows) [
          | some q ↦ (ready, told existing q)
          | none ↦ elim (find (pending_of who.session_id) ready.rows) [
            | some q ↦ (ready, told existing_pending q)
            | none ↦ (made, report created id made)
          ]
        ]
      ]

  -- `create`, which `Create` and `Complete` call.
  unfoldable pub create :
      World T → ℕ → String → Identity → Create → String → Inbox T → Inbox T × Reply
  create w now id who c kind s =
      if s.terminal_managed then (s, refused invalid) else create_locked w now id who c kind s

  -- `owned`.
  unfoldable pub owned : World T → Identity → String → Inbox T → Checked Question
  owned w who id s = do
    valid w.session_of who
    q ← fetch id s
    guard (q.task_id == who.task_id && str_eq q.session_id who.session_id) owner
    ok q

  -- `poll`: the reply, and the heartbeat.
  unfoldable pub poll : World T → ℕ → Identity → String → Bool → Inbox T → Inbox T × Reply
  poll w now who id heartbeat s =
      let ready = reconcile w now s in
      let beaten = record ready { rows = update_where (has_id id) (beat_row now) ready.rows } in
      elim (owned w who id ready) [
        | err e ↦ (ready, refused e)
        | ok q ↦
            if heartbeat && is_pending q.status
            then (beaten, told (now_is q.status) (beat_row now q))
            else (ready, told (now_is q.status) q)
      ]

  unfoldable pub dismiss : World T → ℕ → String → ℕ → Inbox T → Inbox T × Reply
  unfolding transition
  dismiss w now id revision s =
      let ready = reconcile w now s in
      elim (fetch id ready) [
        | err e ↦ (ready, refused e)
        | ok q ↦
            let gone =
              transition now id "dismissed" q.session_id
                (update_where (has_id id) (dismiss_row now) ready.rows) ready in
            if not (revision == q.revision)
            then (ready, told stale_revision q)
            else if not (is_pending q.status)
            then (ready, told already_resolved q)
            else (gone, report_status id gone)
      ]

  unfoldable pub reopen : World T → ℕ → Identity → String → ℕ → Bool → Inbox T → Inbox T × Reply
  unfolding transition
  reopen w now who id revision user_requested s =
      let ready = reconcile w now s in
      let back =
        transition now id "reopened" who.session_id
          (update_where (has_id id) (reopen_row now who) ready.rows) ready in
      if s.terminal_managed then (s, refused invalid) else elim (valid w.session_of who) [
        | err e ↦ (s, refused e)
        | ok _ ↦ elim (fetch id ready) [
          | err e ↦ (ready, refused e)
          | ok q ↦
              if not (q.task_id == who.task_id)
              then (ready, refused owner)
              else if not (q.revision == revision)
              then (ready, told stale_revision q)
              else if is_pending q.status && str_eq q.session_id who.session_id
              then (ready, told (now_is q.status) q)
              else if not (is_unanswered q.status) && not (is_dismissed q.status && user_requested)
              then (ready, refused conflict)
              else if not (count (pending_of who.session_id) ready.rows == 0)
              then (ready, refused conflict)
              else (back, report reopened id back)
        ]
      ]

  unfoldable pub acknowledge : World T → ℕ → Identity → String → ℕ → Inbox T → Inbox T × Reply
  unfolding transition
  acknowledge w now who id revision s =
      let ready = reconcile w now s in
      let noted =
        transition now id "acknowledged" who.session_id
          (update_where (has_id id) (acknowledge_row now) ready.rows) ready in
      elim (valid w.session_of who >> fetch id ready) [
        | err e ↦ (ready, refused e)
        | ok q ↦
            if not (q.task_id == who.task_id)
              || (not (str_eq q.session_id who.session_id) && not (is_answered q.status))
            then (ready, refused owner)
            else if not (q.revision == revision)
            then (ready, told stale_revision q)
            else if is_pending q.status
            then (ready, refused conflict)
            else if is_some q.acknowledged_at
            then (ready, told (now_is q.status) q)
            else (noted, report_status id noted)
      ]

  -- `moveCompletedTask`, with the tasks as the board's transaction leaves them.
  unfoldable pub move_completed : World T → Question → String → String → T → Checked T
  move_completed w q action target tasks =
      let live = w.session_of q.session_id in
      elim w.mover [
        | none ↦ err conflict
        | some move ↦ do
          valid w.session_of (record { task_id = q.task_id; session_id = q.session_id })
          guard
              (not (str_eq q.origin "observer")
                || live.revision == q.evidence_revision && live.input == q.input_generation)
              conflict
          elim (w.task_row tasks q.task_id) [
            | none ↦ err storage
            | some (source, status) ↦ do
              guard
                  (str_eq status q.completion_task_status
                    && length (completion_options q.task_id source status (action ∷ [])) == 1)
                  conflict
              elim (move tasks q.task_id target) [ none ↦ err storage | some t ↦ ok t ]
          ]
      ]
