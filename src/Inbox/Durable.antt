-- ===== src/Inbox/Durable.antt =====
-- Answers of internal/inbox are durable, and revisions only grow.
use kamacu.Common.{
  update_where, find-update_where, find-append, find-some, ◌≤◌, ◌<◌, ◌≡◌, refl, ap, sym, subst, ◌∙◌,
  Bool, true, false, some, List, [], ◌∷◌, arith, if◌then◌else◌, String, str_eq, str_eq_iff,
  Bool-cases, inl, inr,
}
use kamacu.Inbox.{Question, Status, is_pending, is_answered}
use kamacu.Inbox.Rows.{has_id, row_of}
use kamacu.Inbox.Writes.{
  Write, edits, expires, closes, inserts, reopens, Writes, done, next, IsEdit, IsClosing,
}

-- The row is still there under its id, its revision is no smaller, and greater where it is pending
-- again, and an answer is as it was.
pub record Keeps (x y : Question) : Type 0 where
  pub grown : x.revision ≤ y.revision
  pub reopened : is_pending x.status ≡ false → is_pending y.status ≡ true → x.revision < y.revision
  pub final :
      is_answered x.status ≡ true
      → (y.status ≡ x.status) × (y.answer ≡ x.answer) × (y.answer_source ≡ x.answer_source)

abbrev pub Kept : String → Question → List Question → Type 0
Kept id x rows = (y : Question) × (row_of id rows ≡ some y) × Keeps x y

unchanged_row : (x : Question) → Keeps x x
unchanged_row x = record {
  grown = omega arith;
  reopened = λ h k. absurd (ground (arith, h, k));
  final = λ h. (refl, refl, refl);
}

Keeps-trans : (x y z : Question) → Keeps x y → Keeps y z → Keeps x z
Keeps-trans x y z k l = record {
  grown = omega (arith, k.grown, l.grown);
  reopened = λ h g. elim (Bool-cases (is_pending y.status)) [
    | inl p ↦ let first : x.revision < y.revision = k.reopened h p in omega (arith, first, l.grown)
    | inr p ↦ let last : y.revision < z.revision = l.reopened p g in omega (arith, k.grown, last)
  ];
  final = λ h.
      let a = k.final h in
      let b = l.final (ap is_answered a.0 ∙ h) in (b.0 ∙ a.0, b.1 ∙ a.1, b.2 ∙ a.2);
}

-- An update, told for the row alone.
update-Kept :
    (p : Question → Bool) (f : Question → Question) (rows : List Question) (id : String)
    (x : Question)
    → ((z : Question) → (f z).id ≡ z.id)
    → row_of id rows ≡ some x
    → (p x ≡ true → Keeps x (f x))
    → Kept id x (update_where p f rows)
update-Kept p f rows id x ids found k = (
  (if p x then f x else x),
  find-update_where (has_id id) p f rows (λ z. ap (λ i. str_eq i id) (ids z)) ∙ rw found refl,
  elim (Bool-cases (p x)) [ inl h ↦ rw h (k h) | inr h ↦ rw h (unchanged_row x) ],
)

pending_not_answered : (s : Status) → is_pending s ≡ true → is_answered s ≡ false
pending_not_answered s h = ground (arith, h)

closing-Keeps : (x y : Question) → is_pending x.status ≡ true → IsClosing x y → Keeps x y
closing-Keeps x y h r = record {
  grown = r.3;
  reopened = λ k _. absurd (ground (arith, h, k));
  final = λ k. absurd (ground (arith, pending_not_answered x.status h, k));
}

reopening-Keeps :
    (x y : Question) → is_answered x.status ≡ false → x.revision < y.revision → Keeps x y
reopening-Keeps x y h r = record {
  grown = omega (arith, r);
  reopened = λ _ _. r;
  final = λ k. absurd (ground (arith, h, k));
}

edit-Keeps : (x y : Question) → IsEdit x y → Keeps x y
edit-Keeps x y e = record {
  grown = e.5;
  reopened = λ h k. absurd (ground (arith, h, k, e.2));
  final = λ _. (e.2, e.3, e.4);
}

-- The row that an id finds, if it is the one that is found by another.
same_row :
    (id other : String) (rows : List Question) (x q : Question)
    → row_of id rows ≡ some x
    → row_of other rows ≡ some q
    → has_id other x ≡ true
    → x ≡ q
same_row id other rows x q hx hq e =
    let ex : x.id ≡ id = (str_eq_iff x.id id).0 (find-some (has_id id) rows x hx) in
    let eo : x.id ≡ other = (str_eq_iff x.id other).0 e in
    let both : some x ≡ some q = sym hx ∙ ap (λ i. row_of i rows) (sym ex ∙ eo) ∙ hq in cc

Write-Kept :
    {a b : List Question} (id : String) (x : Question)
    → Write a b
    → row_of id a ≡ some x
    → Kept id x b
Write-Kept {a} {b} id x (edits p f h e) found =
    subst (Kept id x) (sym e)
      (update-Kept p f a id x (λ z. (h z).0) found (λ _. edit-Keeps x (f x) (h x)))
Write-Kept {a} {b} id x (expires p f h open_ e) found =
    subst (Kept id x) (sym e)
      (update-Kept p f a id x (λ z. (h z).0) found (λ k. closing-Keeps x (f x) (open_ x k) (h x)))
Write-Kept {a} {b} id x (closes other q f hq open_ h e) found = subst (Kept id x) (sym e) (
    update-Kept (has_id other) f a id x (λ z. (h z).0) found
      (λ k.
        let same = same_row id other a x q found hq k in
        closing-Keeps x (f x) (ap (λ z. is_pending z.status) same ∙ open_) (h x)))
Write-Kept {a} {b} id x (inserts q _ _ _ e) found =
    subst (Kept id x) (sym e)
      (x, find-append (has_id id) a (q ∷ []) ∙ rw found refl, unchanged_row x)
Write-Kept {a} {b} id x (reopens other q session f hq open_ _ h e) found =
    subst (Kept id x) (sym e) (
      update-Kept (has_id other) f a id x (λ z. (h z).0) found
        (λ k.
          let same = same_row id other a x q found hq k in
          reopening-Keeps x (f x) (ap (λ z. is_answered z.status) same ∙ open_) (h x).2))

pub Writes-Kept :
    {a b : List Question} (id : String) (x : Question)
    → Writes a b
    → row_of id a ≡ some x
    → Kept id x b
Writes-Kept id x done found = (x, found, unchanged_row x)
Writes-Kept id x (next ws v) found =
    let (y, fy, ky) = Writes-Kept id x ws found in
    let (z, fz, kz) = Write-Kept id y v fy in (z, fz, Keeps-trans x y z ky kz)
