-- ===== src/Common/Tables.antt =====
-- Tables as lists of rows, and the statements of SQLite that run on them.
use mathlib.Core.Path.{◌≡◌, refl}
use mathlib.Core.Bool.{Bool, true, false}
use mathlib.Core.Option.{Option, none, some}
use mathlib.Core.List.{List, [], ◌∷◌, ◌++◌}
use Prim.Native.Nat.{ℕ, suc, ◌+◌, ◌≤◌}
use native.Mathlib.Omega.{arith}
use kamacu.Common.Tests.{if◌then◌else◌}

module _ {ℓ} {A : Type ℓ} where
  -- `SELECT ... WHERE p` of one row.
  abbrev pub find : (A → Bool) → List A → Option A
  find p [] = none
  find p (x ∷ xs) = if p x then some x else find p xs

  -- `UPDATE ... SET f WHERE p`.
  abbrev pub update_where : (A → Bool) → (A → A) → List A → List A
  update_where p f [] = []
  update_where p f (x ∷ xs) = (if p x then f x else x) ∷ update_where p f xs

  -- `SELECT COUNT(*) ... WHERE p`.
  abbrev pub count : (A → Bool) → List A → ℕ
  count p [] = 0
  count p (x ∷ xs) = if p x then suc (count p xs) else count p xs

  pub count-append : (p : A → Bool) (xs ys : List A) → count p (xs ++ ys) ≡ count p xs + count p ys
  count-append p [] ys = omega arith
  count-append p (x ∷ xs) ys = ground (arith, count-append p xs ys)

  -- An update that gives no row the property it lacked leaves no more of them.
  pub count-update_where_le :
      (p r : A → Bool) (f : A → A) (xs : List A)
      → ((x : A) → r x ≡ true → p (f x) ≡ true → p x ≡ true)
      → count p (update_where r f xs) ≤ count p xs
  count-update_where_le p r f [] h = omega arith
  count-update_where_le p r f (x ∷ xs) h = ground (arith, h x, count-update_where_le p r f xs h)

  -- Any update makes as many more as there are rows that it touches, at most.
  pub count-update_where :
      (p r : A → Bool) (f : A → A) (xs : List A)
      → count p (update_where r f xs) ≤ count p xs + count r xs
  count-update_where p r f [] = omega arith
  count-update_where p r f (x ∷ xs) = ground (arith, count-update_where p r f xs)

  pub find-none-count : (p : A → Bool) (xs : List A) → find p xs ≡ none → count p xs ≡ 0
  find-none-count p [] h = refl
  find-none-count p (x ∷ xs) h = ground (arith, find-none-count p xs)

  pub find-some : (p : A → Bool) (xs : List A) (y : A) → find p xs ≡ some y → p y ≡ true
  find-some p [] y h = absurd (ground arith)
  find-some p (x ∷ xs) y h = ground (arith, find-some p xs y)

  -- Counting what implies another property.
  pub count_le :
      (p r : A → Bool) (xs : List A) → ((x : A) → p x ≡ true → r x ≡ true) → count p xs ≤ count r xs
  count_le p r [] h = omega arith
  count_le p r (x ∷ xs) h = ground (arith, h x, count_le p r xs h)

  -- A row that an update leaves findable is found where it was, updated.
  pub find-update_where :
      (p r : A → Bool) (f : A → A) (xs : List A)
      → ((x : A) → p (f x) ≡ p x)
      → find p (update_where r f xs)
        ≡ elim (find p xs) [ none ↦ none | some x ↦ some (if r x then f x else x) ]
  find-update_where p r f [] h = refl
  find-update_where p r f (x ∷ xs) h = ground (arith, h x, find-update_where p r f xs h)

  pub find-append :
      (p : A → Bool) (xs ys : List A)
      → find p (xs ++ ys) ≡ elim (find p xs) [ none ↦ find p ys | some x ↦ some x ]
  find-append p [] ys = refl
  find-append p (x ∷ xs) ys = ground (arith, find-append p xs ys)

  -- `DELETE ... WHERE p`.
  abbrev pub delete_where : (A → Bool) → List A → List A
  delete_where p [] = []
  delete_where p (x ∷ xs) = if p x then delete_where p xs else x ∷ delete_where p xs

  -- A delete that spares what a query looks for is not seen by it.
  pub find-delete_where :
      (p r : A → Bool) (xs : List A)
      → ((x : A) → p x ≡ true → r x ≡ false)
      → find p (delete_where r xs) ≡ find p xs
  find-delete_where p r [] h = refl
  find-delete_where p r (x ∷ xs) h = ground (arith, h x, find-delete_where p r xs h)

  -- Nor is an update that touches nothing of it.
  pub find-update_where_other :
      (p r : A → Bool) (f : A → A) (xs : List A)
      → ((x : A) → p (f x) ≡ p x)
      → ((x : A) → p x ≡ true → r x ≡ false)
      → find p (update_where r f xs) ≡ find p xs
  find-update_where_other p r f [] h k = refl
  find-update_where_other p r f (x ∷ xs) h k =
      ground (arith, h x, k x, find-update_where_other p r f xs h k)
