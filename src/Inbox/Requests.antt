-- ===== src/Inbox/Requests.antt =====
-- `validate`, `valid` and the completion options of internal/inbox/service.go and completion.go.
use kamacu.Common.{
  ℕ, Bool, true, false, not, ◌&&◌, ◌||◌, Option, none, some, List, [], ◌∷◌, ◌++◌, String, str_eq,
  Text, if◌then◌else◌, ltb, ◌==◌, is_nil, trim_space, byte_len, length, codes, ◌≡◌, refl, ◌⊎◌, inl,
  inr,
}
use kamacu.Inbox.{Choice, Create, Identity, Live, InboxError, invalid, identity}

pub data Checked (A : Type 0) : Type 0 where
  ok : A → Checked A
  err : InboxError → Checked A

infixl 5 ◌>>=◌ ◌>>◌
abbrev pub ◌>>=◌ : {A B : Type 0} → Checked A → (A → Checked B) → Checked B
ok a >>= f = f a
err e >>= f = err e

abbrev pub ◌>>◌ : {B : Type 0} → Checked (Unit {0}) → Checked B → Checked B
m >> k = m >>= λ _. k

abbrev pub guard : Bool → InboxError → Checked (Unit {0})
guard true e = ok tt
guard false e = err e

pub Checked-cases :
    {A : Type 0} (c : Checked A) → ((e : InboxError) × (c ≡ err e)) ⊎ ((a : A) × (c ≡ ok a))
Checked-cases (ok a) = inr (a, refl)
Checked-cases (err e) = inl (e, refl)

-- `strings.TrimSpace(v) == ""`.
unfoldable pub is_blank : Text → Bool
is_blank v = is_nil (trim_space v)

abbrev pub fits : ℕ → Text → Bool
fits limit v = not (is_blank v) && not (ltb limit (byte_len v))

abbrev pub mem_string : String → List String → Bool
mem_string s [] = false
mem_string s (t ∷ ts) = str_eq s t || mem_string s ts

-- The loop over the options, with the ids that were seen.
abbrev pub check_options : List String → List Choice → Bool
check_options seen [] = true
check_options seen (o ∷ os) =
    fits 100 (codes o.id)
    && fits 500 o.label
    && not (mem_string o.id seen)
    && check_options (o.id ∷ seen) os

unfoldable pub validate : Create → Checked (Unit {0})
unfolding is_blank
validate c = do
  guard (not (is_blank c.abstract_text) && not (ltb 480 (length c.abstract_text))) invalid
  guard (fits 200 c.key && fits 4000 c.summary && fits 32000 c.context && fits 4000 c.question)
      invalid
  guard (not (ltb 10 (length c.options))) invalid
  guard (check_options [] c.options) invalid

-- A negative task id, which no task has, is refused before the lookup.
unfoldable pub valid : (String → Live) → Identity → Checked (Unit {0})
valid session_of who =
    let live = session_of who.session_id in
    guard
      (not (str_eq who.session_id "")
        && live.live
        && live.task_id == who.task_id
        && (if who.task_id == 0 then live.global else not live.global))
      identity

-- `CompletionTarget`; `none` is the empty string.
abbrev pub completion_target : String → Option String
completion_target action =
    if str_eq action "move_to_review"
    then some "in_review"
    else if str_eq action "move_to_done"
    then some "done"
    else none

abbrev pub is_status : List String → String → Bool
is_status ss s = mem_string s ss

abbrev pub forward : Bool → String → String → List Choice
forward false id label = []
forward true id label = record { id = id; label = codes label } ∷ []

-- `CompletionOptions`: the suggested moves that go forward from the task's status.
unfoldable pub completion_options : ℕ → String → String → List String → List Choice
completion_options task_id source status suggested =
    if task_id == 0 || not (str_eq source "manual")
    then []
    else forward
        (is_status ("todo" ∷ "in_progress" ∷ []) status && mem_string "move_to_review" suggested)
        "move_to_review" "Move to review and close session"
      ++ forward
          (is_status ("todo" ∷ "in_progress" ∷ "in_review" ∷ []) status
            && mem_string "move_to_done" suggested)
          "move_to_done" "Move to done and close session"
