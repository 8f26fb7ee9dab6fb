-- ===== src/Inbox/Unique.antt =====
-- The unique indexes of `inbox_questions` under the writes of internal/inbox.
use kamacu.Common.{
  find, update_where, count, count-append, count-update_where_le, text_eq, text_eq→eq, refl, ==_iff,
  find-none-count, ◌≤◌, ◌≡◌, sym, subst, Bool, true, none, List, [], ◌∷◌, ◌++◌, arith, String,
  str_eq, str_eq_iff, Bool-cases, inl, inr, ℕ, Text, ◌&&◌, ◌==◌,
}
use kamacu.Inbox.{Question}
use kamacu.Inbox.Rows.{has_id, row_of}
use kamacu.Inbox.Writes.{
  Write, edits, expires, closes, inserts, reopens, Writes, done, next, SameRequest, same_key,
}

-- The rows of one key of the index on task, creating session and request key.
abbrev pub of_request : ℕ → String → Text → Question → Bool
of_request task session key q =
    q.task_id == task && (str_eq q.created_session_id session && text_eq q.request_key key)

-- An id names one row, and so does a request.
pub record IsTable (rows : List Question) : Type 0 where
  pub unique : (id : String) → count (has_id id) rows ≤ 1
  pub requested :
      (task : ℕ) (session : String) (key : Text) → count (of_request task session key) rows ≤ 1

same_id :
    (p : Question → Bool) (f : Question → Question) (rows : List Question)
    → ((x : Question) → (f x).id ≡ x.id)
    → (id : String) → count (has_id id) (update_where p f rows) ≤ count (has_id id) rows
same_id p f rows h id = count-update_where_le (has_id id) p f rows (λ x _ k. ground (arith, h x, k))

request_held :
    (task : ℕ) (session : String) (key : Text) (x y : Question)
    → SameRequest x y
    → of_request task session key y ≡ true
    → of_request task session key x ≡ true
request_held task session key x y e h = ground (arith, e.0, e.1, e.2, h)

-- No update takes an id or a request from another row.
keeps-IsTable :
    (p : Question → Bool) (f : Question → Question) (rows : List Question)
    → ((x : Question) → (f x).id ≡ x.id)
    → ((x : Question) → SameRequest x (f x))
    → IsTable rows
    → IsTable (update_where p f rows)
keeps-IsTable p f rows ids keys t = record {
  unique = λ id. omega (arith, same_id p f rows ids id, t.unique id);
  requested = λ task session key. omega (
    arith,
    count-update_where_le (of_request task session key) p f rows
        (λ x _ h. request_held task session key x (f x) (keys x) h),
    t.requested task session key,
  );
}

pub count_one : (p : Question → Bool) (q : Question) → count p (q ∷ []) ≤ 1
count_one p q = ground arith

same_request_key :
    (task : ℕ) (session : String) (key : Text) (q x : Question)
    → of_request task session key q ≡ true
    → of_request task session key x ≡ true
    → same_key q x ≡ true
same_request_key task session key q x h k = ground (
  arith,
  (==_iff q.task_id task).0 (ground (arith, h)),
  (==_iff x.task_id task).0 (ground (arith, k)),
  (str_eq_iff q.created_session_id session).0 (ground (arith, h)),
  (str_eq_iff x.created_session_id session).0 (ground (arith, k)),
  text_eq→eq q.request_key key (ground (arith, h)),
  text_eq→eq x.request_key key (ground (arith, k)),
)

-- A request of which no row is found has none.
no_request :
    (task : ℕ) (session : String) (key : Text) (q : Question) (rows : List Question)
    → of_request task session key q ≡ true
    → find (same_key q) rows ≡ none
    → count (of_request task session key) rows ≡ 0
no_request task session key q [] h f = refl
no_request task session key q (x ∷ rows) h f = elim (Bool-cases (of_request task session key x)) [
  | inl k ↦ absurd (ground (arith, f, same_request_key task session key q x h k))
  | inr k ↦ elim (Bool-cases (same_key q x)) [
    | inl e ↦ absurd (ground (arith, f, e))
    | inr e ↦ ground (arith, k, no_request task session key q rows h (ground (arith, f, e)))
  ]
]

-- A new row counts for its own id and its own request, which had none.
insert-IsTable :
    (q : Question) (rows : List Question)
    → row_of q.id rows ≡ none
    → find (same_key q) rows ≡ none
    → IsTable rows
    → IsTable (rows ++ q ∷ [])
insert-IsTable q rows fresh free t = record {
  unique = λ id. elim (Bool-cases (has_id id q)) [
    | inl h ↦
        let e : q.id ≡ id = (str_eq_iff q.id id).0 h in
        let none_yet : count (has_id id) rows ≡ 0 =
          find-none-count (has_id id) rows (subst (λ i. row_of i rows ≡ none) e fresh) in
        omega (arith, count-append (has_id id) rows (q ∷ []), count_one (has_id id) q, none_yet)
    | inr h ↦ ground (arith, count-append (has_id id) rows (q ∷ []), t.unique id, h)
  ];
  requested = λ task session key.
      let p = of_request task session key in
      elim (Bool-cases (p q)) [
        | inl h ↦ omega (
          arith,
          count-append p rows (q ∷ []),
          count_one p q,
          no_request task session key q rows h free,
        )
        | inr h ↦ ground (arith, count-append p rows (q ∷ []), t.requested task session key, h)
      ];
}

Write-IsTable : {a b : List Question} → Write a b → IsTable a → IsTable b
Write-IsTable {a} {b} (edits p f h e) t =
    subst IsTable (sym e) (keeps-IsTable p f a (λ x. (h x).0) (λ x. (h x).6) t)
Write-IsTable {a} {b} (expires p f h _ e) t =
    subst IsTable (sym e) (keeps-IsTable p f a (λ x. (h x).0) (λ x. (h x).4) t)
Write-IsTable {a} {b} (closes id q f _ _ h e) t =
    subst IsTable (sym e) (keeps-IsTable (has_id id) f a (λ x. (h x).0) (λ x. (h x).4) t)
Write-IsTable {a} {b} (inserts q fresh _ free e) t =
    subst IsTable (sym e) (insert-IsTable q a fresh free t)
Write-IsTable {a} {b} (reopens id q session f _ _ _ h e) t =
    subst IsTable (sym e) (keeps-IsTable (has_id id) f a (λ x. (h x).0) (λ x. (h x).3) t)

pub Writes-IsTable : {a b : List Question} → Writes a b → IsTable a → IsTable b
Writes-IsTable done t = t
Writes-IsTable (next ws v) t = Write-IsTable v (Writes-IsTable ws t)
