-- ===== src/Inbox/Calls.antt =====
-- The service of internal/inbox through any sequence of calls.
use kamacu.Common.{ℕ, ◌≤◌, ◌<◌, ◌≡◌, ap, ◌∙◌, Bool, true, false, Option, none, some, String, Text}
use kamacu.Inbox.{Question, Identity, Create, World, Inbox, is_pending, is_answered}
use kamacu.Inbox.Rows.{row_of}
use kamacu.Inbox.Service.{reconcile, create, poll, dismiss, reopen, acknowledge}
use kamacu.Inbox.Answering.{answer}
use kamacu.Inbox.Observer.{
  observe, hide_observed, supersede_observed, record_delivery, recover_deliveries,
  use_terminal_monitoring, finish_notification,
}
use kamacu.Inbox.Writes.{
  Writes, done, Writes-trans, reconcile-Writes, create-Writes, poll-Writes, dismiss-Writes,
  reopen-Writes, acknowledge-Writes,
}
use kamacu.Inbox.Methods.{
  answer-Writes, observe-Writes, hide_observed-Writes, supersede_observed-Writes,
  record_delivery-Writes, recover_deliveries-Writes, finish_notification-Writes,
}
use kamacu.Inbox.Unique.{IsTable, Writes-IsTable}
use kamacu.Inbox.Pending.{HasOnePending, Writes-HasOnePending}
use kamacu.Inbox.Durable.{Writes-Kept}

-- One call, in the world and at the time of its own. A UUID is new to the table.
pub data Call {T : Type 0} (w : World T) (now : ℕ) (s : Inbox T) : Inbox T → Type 0 where
  reconciles : Call w now s (reconcile w now s)
  creates :
      (id : String) (who : Identity) (c : Create) (kind : String)
      → row_of id s.rows ≡ none
      → Call w now s (create w now id who c kind s).0
  observes :
      (id : String) (who : Identity) (c : Create) (kind mode : String) (revision input : ℕ)
      → row_of id s.rows ≡ none
      → Call w now s (observe w now id who c kind mode revision input s).0
  polls :
      (who : Identity) (id : String) (heartbeat : Bool)
      → Call w now s (poll w now who id heartbeat s).0
  answers :
      (who : Option Identity) (id : String) (revision : ℕ) (text : Text) (option : String)
      → Call w now s (answer w now who id revision text option s).0
  dismisses : (id : String) (revision : ℕ) → Call w now s (dismiss w now id revision s).0
  reopens :
      (who : Identity) (id : String) (revision : ℕ) (user_requested : Bool)
      → Call w now s (reopen w now who id revision user_requested s).0
  acknowledges :
      (who : Identity) (id : String) (revision : ℕ)
      → Call w now s (acknowledge w now who id revision s).0
  hides : (session : String) (hide : Bool) → Call w now s (hide_observed session hide s)
  supersedes : (session : String) → Call w now s (supersede_observed now session s)
  records : (id status : String) → Call w now s (record_delivery id status s).0
  recovers : Call w now s (recover_deliveries s)
  manages : Call w now s (use_terminal_monitoring s)
  finishes : (id state : String) → Call w now s (finish_notification now id state s)

-- Any sequence of calls.
pub data Served {T : Type 0} (s : Inbox T) : Inbox T → Type 0 where
  start : Served s s
  then_call : {t u : Inbox T} (w : World T) (now : ℕ) → Served s t → Call w now t u → Served s u

module _ {T : Type 0} where
  Call-Writes : {w : World T} {now : ℕ} {s t : Inbox T} → Call w now s t → Writes s.rows t.rows
  unfolding use_terminal_monitoring
  Call-Writes {w} {now} {s} reconciles = reconcile-Writes w now s
  Call-Writes {w} {now} {s} (creates id who c kind fresh) =
      create-Writes w now id who c kind s fresh
  Call-Writes {w} {now} {s} (observes id who c kind mode revision input fresh) =
      observe-Writes w now id who c kind mode revision input s fresh
  Call-Writes {w} {now} {s} (polls who id heartbeat) = poll-Writes w now who id heartbeat s
  Call-Writes {w} {now} {s} (answers who id revision text option) =
      answer-Writes w now who id revision text option s
  Call-Writes {w} {now} {s} (dismisses id revision) = dismiss-Writes w now id revision s
  Call-Writes {w} {now} {s} (reopens who id revision user_requested) =
      reopen-Writes w now who id revision user_requested s
  Call-Writes {w} {now} {s} (acknowledges who id revision) =
      acknowledge-Writes w now who id revision s
  Call-Writes {w} {now} {s} (hides session hide) = hide_observed-Writes session hide s
  Call-Writes {w} {now} {s} (supersedes session) = supersede_observed-Writes now session s
  Call-Writes {w} {now} {s} (records id status) = record_delivery-Writes id status s
  Call-Writes {w} {now} {s} recovers = recover_deliveries-Writes s
  Call-Writes {w} {now} {s} manages = done
  Call-Writes {w} {now} {s} (finishes id state) = finish_notification-Writes now id state s

  pub Served-Writes : {s t : Inbox T} → Served s t → Writes s.rows t.rows
  Served-Writes start = done
  Served-Writes (then_call w now calls c) = Writes-trans (Served-Writes calls) (Call-Writes c)

  -- Ids and requests stay unique, and no session gets a second pending question: from a table in which
  -- an id names at most one row, and so do a task, a creating session and a request key together,
  -- every sequence of the calls of `Call` with new UUIDs leads to such a table, and each session of
  -- which at most one row was pending has at most one pending row. (Rows of origin notification
  -- count too, which the index on pending rows leaves out.)
  pub Served-IsTable :
      {s t : Inbox T}
      → Served s t
      → IsTable s.rows
      → IsTable t.rows
        × ((session : String) → HasOnePending session s.rows → HasOnePending session t.rows)
  Served-IsTable calls table = (
    Writes-IsTable (Served-Writes calls) table,
    (λ session one. Writes-HasOnePending session (Served-Writes calls) table one),
  )

  -- An answer is durable: whatever is called after it, the answered question is found under its id,
  -- is answered, and has the same answer and source.
  pub answer_final :
      {s t : Inbox T} (id : String) (q : Question)
      → Served s t
      → row_of id s.rows ≡ some q
      → is_answered q.status ≡ true
      → (r : Question) × (row_of id t.rows ≡ some r)
        × (is_answered r.status ≡ true)
        × (r.answer ≡ q.answer)
        × (r.answer_source ≡ q.answer_source)
  answer_final id q calls found done_ =
      let (r, there, k) = Writes-Kept id q (Served-Writes calls) found in
      let same = k.final done_ in (r, there, ap is_answered same.0 ∙ done_, same.1, same.2)

  -- No question is lost, no revision ever falls, and a question that is pending again has a greater
  -- revision than when it was not, so that a button of the old one stays outdated.
  pub revision_grows :
      {s t : Inbox T} (id : String) (q : Question)
      → Served s t
      → row_of id s.rows ≡ some q
      → (r : Question) × (row_of id t.rows ≡ some r)
        × (q.revision ≤ r.revision)
        × (is_pending q.status ≡ false → is_pending r.status ≡ true → q.revision < r.revision)
  revision_grows id q calls found =
      let (r, there, k) = Writes-Kept id q (Served-Writes calls) found in
      (r, there, k.grown, k.reopened)
