-- ===== src/Inbox/Atomic.antt =====
-- An answer of internal/inbox/service.go is saved as a whole or not at all, and is fit to be typed.
use kamacu.Common.{
  find-some, find-update_where, ℕ, ◌≤◌, ◌≡◌, refl, ap, sym, subst, ◌∙◌, true, false, Option, some,
  arith, if◌then◌else◌, String, Text, ◌⊎◌, inl, inr, byte_len, is_nil,
}
use kamacu.Inbox.{Question, Identity, World, Inbox, Reply, refused, told, accepted, is_answered}
use kamacu.Inbox.Rows.{row_of, has_id}
use kamacu.Inbox.Requests.{Checked-cases, ok}
use kamacu.Inbox.Service.{reconcile}
use kamacu.Inbox.Answering.{
  Verdict, outdated, resolved, saves, verdict, asked, prepare, save, conclude, answer, choose, fit,
  answer_row, queue_row,
}
use kamacu.Inbox.Methods.{row_of-id, asked_found, prepare_rows}

-- What an answer is typed as: not empty, no longer than the limit.
abbrev pub IsTypeable : Text → Type 0
IsTypeable answer = (is_nil answer ≡ false) × (byte_len answer ≤ 16000)

fit-IsTypeable : (q : Question) (text answer : Text) → fit q text ≡ ok answer → IsTypeable answer
unfolding fit
fit-IsTypeable q text answer h = (ground (arith, h), ground (arith, h))

verdict-IsTypeable :
    (q : Question) (revision : ℕ) (text : Text) (option : String) (chosen : Text)
    → verdict q revision text option ≡ ok (saves chosen)
    → IsTypeable chosen
unfolding verdict
verdict-IsTypeable q revision text option chosen h = elim (Checked-cases (choose q text option)) [
  | inl (e, c) ↦ absurd (ground (arith, h, c))
  | inr (a, c) ↦ elim (Checked-cases (fit q a)) [
    | inl (e, f) ↦ absurd (ground (arith, h, c, f))
    | inr (b, f) ↦
        let same : b ≡ chosen = ground (arith, h, c, f) in
        subst IsTypeable same (fit-IsTypeable q a b f)
  ]
]

module _ {T : Type 0} where
  -- What one run of `Answer` comes to: the reconciled inbox, or an answer that is accepted.
  abbrev pub IsAtomic : World T → ℕ → Inbox T → Inbox T × Reply → Type 0
  IsAtomic w now s (t, reply) =
      (t ≡ reconcile w now s)
      ⊎ ((r : Question) × (reply ≡ told accepted r)
          × (row_of r.id t.rows ≡ some r)
          × (is_answered r.status ≡ true)
          × IsTypeable r.answer)

  -- The row of the question is still there behind what precedes the answer.
  prepared_found :
      (w : World T) (who : Option Identity) (q : Question) (option : String) (s r : Inbox T)
      → row_of q.id s.rows ≡ some q
      → prepare w who q option s ≡ ok r
      → (z : Question) × (row_of q.id r.rows ≡ some z)
  prepared_found w who q option s r found h = elim (prepare_rows w who q option s r h) [
    | inl e ↦ (q, ap (row_of q.id) e ∙ found)
    | inr e ↦ (
      (if has_id q.id q then queue_row q else q),
      ap (row_of q.id) e
          ∙ find-update_where (has_id q.id) (has_id q.id) queue_row s.rows (λ x. refl)
          ∙ rw found refl,
    )
  ]

  save_found :
      (now : ℕ) (who : Option Identity) (q z : Question) (option : String) (text : Text)
      (r : Inbox T)
      → row_of q.id r.rows ≡ some z
      → row_of q.id (save now who q option text r).rows ≡ some (answer_row now who option text z)
  unfolding save
  save_found now who q z option text r there =
      find-update_where (has_id q.id) (has_id q.id) (answer_row now who option text) r.rows
        (λ x. refl)
      ∙ rw (there, find-some (has_id q.id) r.rows z there) refl

  conclude-IsAtomic :
      (w : World T) (now : ℕ) (who : Option Identity) (option : String) (s ready : Inbox T)
      (q : Question) (v : Verdict)
      → ready ≡ reconcile w now s
      → row_of q.id ready.rows ≡ some q
      → ((text : Text) → v ≡ saves text → IsTypeable text)
      → IsAtomic w now s (conclude w now who option ready q v)
  unfolding conclude
  conclude-IsAtomic w now who option s ready q outdated same found fine = inl same
  conclude-IsAtomic w now who option s ready q resolved same found fine = inl same
  conclude-IsAtomic w now who option s ready q (saves text) same found fine =
      elim (Checked-cases (prepare w who q option ready)) [
        | inl (e, h) ↦
            let kept : conclude w now who option ready q (saves text) ≡ (ready, refused e) =
              ground (arith, h) in
            subst (IsAtomic w now s) (sym kept) (inl same)
        | inr (r, h) ↦
            let (z, there) = prepared_found w who q option ready r found h in
            let row : row_of q.id (save now who q option text r).rows
                ≡ some (answer_row now who option text z) =
              save_found now who q z option text r there in
            let own : z.id ≡ q.id = row_of-id q.id r.rows z there in
            let t = save now who q option text r in
            let saved : conclude w now who option ready q (saves text)
                ≡ (t, told accepted (answer_row now who option text z)) =
              ground (arith, h, row) in
            subst (IsAtomic w now s) (sym saved) (
              inr (
                answer_row now who option text z,
                refl,
                subst (λ i. row_of i t.rows ≡ some (answer_row now who option text z)) (sym own)
                    row,
                refl,
                fine text refl,
              ))
      ]

  -- Answering is all or nothing: whatever it replies, either the inbox is as its first reconciliation
  -- left it, the runs and the tasks included, or the reply is `accepted` and its row stands in the
  -- table, answered by a text that is not empty and has at most 16000 bytes.
  pub answer-IsAtomic :
      (w : World T) (now : ℕ) (who : Option Identity) (id : String) (revision : ℕ) (text : Text)
      (option : String) (s : Inbox T)
      → IsAtomic w now s (answer w now who id revision text option s)
  unfolding answer
  answer-IsAtomic w now who id revision text option s =
      let ready = reconcile w now s in
      elim (Checked-cases (asked w who id ready)) [
        | inl (e, h) ↦ inl (ground (arith, h))
        | inr (q, h) ↦ elim (Checked-cases (verdict q revision text option)) [
          | inl (e, v) ↦ inl (ground (arith, h, v))
          | inr (v, e) ↦
              let found : row_of id ready.rows ≡ some q = asked_found w who id ready q h in
              let named : row_of q.id ready.rows ≡ some q =
                subst (λ i. row_of i ready.rows ≡ some q) (sym (row_of-id id ready.rows q found))
                  found in
              let concluded : conclude w now who option ready q v
                  ≡ answer w now who id revision text option s =
                ground (arith, h, e) in
              subst (IsAtomic w now s) concluded (
                conclude-IsAtomic w now who option s ready q v refl named
                  (λ chosen k. verdict-IsTypeable q revision text option chosen (e ∙ ap ok k)))
        ]
      ]
