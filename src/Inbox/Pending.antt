-- ===== src/Inbox/Pending.antt =====
-- How many questions of a session are pending under the writes of internal/inbox.
use kamacu.Common.{
  find, update_where, count, count-append, count-update_where_le, count-update_where,
  find-none-count, ◌≤◌, ◌≡◌, sym, subst, Bool, true, none, List, [], ◌∷◌, ◌++◌, arith, String,
  str_eq, str_eq_iff, Bool-cases, inl, inr,
}
use kamacu.Inbox.{Question}
use kamacu.Inbox.Rows.{has_id}
use kamacu.Inbox.Service.{pending_of}
use kamacu.Inbox.Writes.{
  Write, edits, expires, closes, inserts, reopens, Writes, done, next, IsEdit, IsClosing,
}
use kamacu.Inbox.Unique.{IsTable, Writes-IsTable, count_one}

-- At most one question of the session is pending.
abbrev pub HasOnePending : String → List Question → Type 0
HasOnePending session rows = count (pending_of session) rows ≤ 1

-- Nor does an update that makes no row pending add to what is pending.
keeps-HasOnePending :
    (p : Question → Bool) (f : Question → Question) (rows : List Question) (session : String)
    → ((x : Question) → pending_of session (f x) ≡ true → pending_of session x ≡ true)
    → HasOnePending session rows
    → HasOnePending session (update_where p f rows)
keeps-HasOnePending p f rows session held one =
    omega (arith, count-update_where_le (pending_of session) p f rows (λ x _ k. held x k), one)

edit_held :
    (x y : Question) (session : String)
    → IsEdit x y
    → pending_of session y ≡ true
    → pending_of session x ≡ true
edit_held x y session e h = ground (arith, e.1, e.2)

closing_held :
    (x y : Question) (session : String)
    → IsClosing x y
    → pending_of session y ≡ true
    → pending_of session x ≡ true
closing_held x y session e h = ground (arith, e.2)

-- And for its own session, of which nothing was pending.
insert-HasOnePending :
    (q : Question) (rows : List Question) (session : String)
    → find (pending_of q.session_id) rows ≡ none
    → HasOnePending session rows
    → HasOnePending session (rows ++ q ∷ [])
insert-HasOnePending q rows session free one = elim (Bool-cases (pending_of session q)) [
  | inl h ↦
      let e : q.session_id ≡ session = (str_eq_iff q.session_id session).0 (ground (arith, h)) in
      let none_yet : count (pending_of session) rows ≡ 0 =
        find-none-count (pending_of session) rows
          (subst (λ i. find (pending_of i) rows ≡ none) e free) in
      omega (
        arith,
        count-append (pending_of session) rows (q ∷ []),
        count_one (pending_of session) q,
        none_yet,
      )
  | inr h ↦ ground (arith, count-append (pending_of session) rows (q ∷ []), one, h)
]

-- A reopened row counts for the session that takes it, of which nothing was pending.
reopen-HasOnePending :
    (id taker session : String) (f : Question → Question) (rows : List Question)
    → ((x : Question) → (f x).session_id ≡ taker)
    → count (pending_of taker) rows ≡ 0
    → count (has_id id) rows ≤ 1
    → HasOnePending session rows
    → HasOnePending session (update_where (has_id id) f rows)
reopen-HasOnePending id taker session f rows h free single one =
    elim (Bool-cases (str_eq taker session)) [
      | inl e ↦
          let same : taker ≡ session = (str_eq_iff taker session).0 e in
          let none_yet : count (pending_of session) rows ≡ 0 =
            subst (λ i. count (pending_of i) rows ≡ 0) same free in
          omega
            (arith, count-update_where (pending_of session) (has_id id) f rows, single, none_yet)
      | inr e ↦ omega (
        arith,
        count-update_where_le (pending_of session) (has_id id) f rows
            (λ x _ k. ground (arith, h x, e, k)),
        one,
      )
    ]

Write-HasOnePending :
    {a b : List Question} (session : String)
    → Write a b
    → IsTable a
    → HasOnePending session a
    → HasOnePending session b
Write-HasOnePending {a} {b} s (edits p f h e) t one =
    subst (HasOnePending s) (sym e)
      (keeps-HasOnePending p f a s (λ x k. edit_held x (f x) s (h x) k) one)
Write-HasOnePending {a} {b} s (expires p f h _ e) t one =
    subst (HasOnePending s) (sym e)
      (keeps-HasOnePending p f a s (λ x k. closing_held x (f x) s (h x) k) one)
Write-HasOnePending {a} {b} s (closes id q f _ _ h e) t one =
    subst (HasOnePending s) (sym e)
      (keeps-HasOnePending (has_id id) f a s (λ x k. closing_held x (f x) s (h x) k) one)
Write-HasOnePending {a} {b} s (inserts q _ free _ e) t one =
    subst (HasOnePending s) (sym e) (insert-HasOnePending q a s free one)
Write-HasOnePending {a} {b} s (reopens id q taker f _ _ free h e) t one =
    subst (HasOnePending s) (sym e)
      (reopen-HasOnePending id taker s f a (λ x. (h x).1) free (t.unique id) one)

pub Writes-HasOnePending :
    {a b : List Question} (session : String)
    → Writes a b
    → IsTable a
    → HasOnePending session a
    → HasOnePending session b
Writes-HasOnePending session done t one = one
Writes-HasOnePending session (next ws v) t one =
    Write-HasOnePending session v (Writes-IsTable ws t) (Writes-HasOnePending session ws t one)
