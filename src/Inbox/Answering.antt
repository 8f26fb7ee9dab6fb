-- ===== src/Inbox/Answering.antt =====
-- `Answer` of internal/inbox/service.go. A nil identity is the browser's.
use kamacu.Common.{
  update_where, ℕ, Bool, not, ◌&&◌, ◌||◌, Option, none, some, List, [], ◌∷◌, ◌++◌, String, str_eq,
  Text, if◌then◌else◌, ltb, leb, ◌==◌, is_nil, is_some, trim_space, byte_len, any,
}
use kamacu.Inbox.{
  answered, Choice, Question, Identity, invalid, owner, conflict, storage, accepted, stale_revision,
  already_resolved, Reply, refused, told, World, Inbox, is_pending,
}
use kamacu.Inbox.Rows.{has_id}
use kamacu.Inbox.Requests.{Checked, ok, err, ◌>>=◌, completion_target, mem_string}
use kamacu.Inbox.Service.{transition, reconcile, fetch, report, owned, move_completed}

-- What `Answer` says of a row before it looks at the answer, or the answer it will save.
pub data Verdict : Type 0 where
  outdated resolved : Verdict
  saves : Text → Verdict

abbrev pub is_observed : Question → Bool
is_observed q = str_eq q.origin "observer"

-- An observed question that only its terminal can answer.
unfoldable pub is_terminal_only : Question → Bool
is_terminal_only q =
    is_observed q
    && (q.hidden
        || not (str_eq q.delivery_mode "text")
          && not (str_eq q.delivery_mode "claude_question")
          && not (str_eq q.kind "completion"))

-- The label of the first option with the id; an empty label counts as none.
abbrev pub label_of : String → List Choice → Text
label_of id [] = []
label_of id (o ∷ os) = if str_eq o.id id then o.label else label_of id os

abbrev pub nonempty : Text → Checked Text
nonempty [] = err invalid
nonempty (c ∷ s) = ok (c ∷ s)

unfoldable pub choose : Question → Text → String → Checked Text
choose q text option =
    if str_eq option ""
    then ok text
    else if not (is_nil text)
    then err invalid
    else nonempty (label_of option q.options)

-- Control characters but newline and tab.
abbrev pub is_control : ℕ → Bool
is_control r = ltb r 32 && not (r == 10) && not (r == 9) || leb 127 r && leb r 159

unfoldable pub fit : Question → Text → Checked Text
fit q text =
    let answer = trim_space text in
    if is_nil answer || ltb 16000 (byte_len answer)
    then err invalid
    else if is_observed q && any is_control answer
    then err invalid
    else ok answer

unfoldable pub verdict : Question → ℕ → Text → String → Checked Verdict
unfolding is_terminal_only choose fit
verdict q revision text option =
    if not (revision == q.revision)
    then ok outdated
    else if not (is_pending q.status)
    then ok resolved
    else if is_terminal_only q
    then err conflict
    else if is_observed q && str_eq q.delivery_mode "claude_question" && str_eq option ""
    then err invalid
    else choose q text option >>= λ chosen. fit q chosen >>= λ answer. ok (saves answer)

abbrev pub is_completion : Question → Bool
is_completion q = str_eq q.kind "completion"

-- Kamacu acts on an exit or a move itself, so nothing is left to acknowledge.
abbrev pub acknowledged : ℕ → Option Identity → Question → String → Option ℕ
acknowledged now who q option =
    if is_some who
      || is_completion q && (str_eq option "exit" || is_some (completion_target option))
    then some now
    else none

abbrev pub answer_row : ℕ → Option Identity → String → Text → Question → Question
answer_row now who option answer q = record q {
  status = answered;
  answer = answer;
  answer_source = if is_some who then "session" else "inbox";
  updated_at = now;
  acknowledged_at = acknowledged now who q option;
  reason = if is_completion q || str_eq q.origin "notification" then option else "";
}

abbrev pub answered_kind : Option Identity → String
answered_kind who = if is_some who then "answered_session" else "answered_inbox"

abbrev pub queue_row : Question → Question
queue_row q = record q { delivery_status = "queued" }

module _ {T : Type 0} where
  -- The row that `Answer` is about.
  abbrev pub asked : World T → Option Identity → String → Inbox T → Checked Question
  asked w none id s = fetch id s
  asked w (some who) id s = owned w who id s

  -- A notification is queued for execution; a run that is there already refuses the transaction.
  abbrev pub queue_run : String → Inbox T → Checked (Inbox T)
  queue_run id s =
      if mem_string id s.runs
      then err storage
      else ok
          (record s { runs = s.runs ++ id ∷ []; rows = update_where (has_id id) queue_row s.rows })

  -- `before`: what the transaction does first. A move replaces a notification's.
  unfoldable pub prepare :
      World T → Option Identity → Question → String → Inbox T → Checked (Inbox T)
  prepare w who q option s =
      let moving : Option String = if is_completion q then completion_target option else none in
      let moved : String → Checked (Inbox T) =
        λ target. move_completed w q option target s.tasks >>= λ t. ok (record s { tasks = t }) in
      if str_eq q.origin "notification" && is_some who then err owner else elim moving [
        | some target ↦ if is_some who then err invalid else moved target
        | none ↦ if str_eq q.origin "notification" then queue_run q.id s else ok s
      ]

  unfoldable pub save : ℕ → Option Identity → Question → String → Text → Inbox T → Inbox T
  unfolding transition
  save now who q option text s =
      transition now q.id (answered_kind who) q.session_id
        (update_where (has_id q.id) (answer_row now who option text) s.rows) s

  -- What the method does with the verdict.
  unfoldable pub conclude :
      World T → ℕ → Option Identity → String → Inbox T → Question → Verdict → Inbox T × Reply
  unfolding prepare save
  conclude w now who option s q outdated = (s, told stale_revision q)
  conclude w now who option s q resolved = (s, told already_resolved q)
  conclude w now who option s q (saves text) = elim (prepare w who q option s) [
    | err e ↦ (s, refused e)
    | ok ready ↦ let saved = save now who q option text ready in (saved, report accepted q.id saved)
  ]

  unfoldable pub answer :
      World T → ℕ → Option Identity → String → ℕ → Text → String → Inbox T → Inbox T × Reply
  unfolding verdict conclude
  answer w now who id revision text option s =
      let ready = reconcile w now s in
      elim (asked w who id ready) [
        | err e ↦ (ready, refused e)
        | ok q ↦ elim (verdict q revision text option) [
          | err e ↦ (ready, refused e)
          | ok v ↦ conclude w now who option ready q v
        ]
      ]
