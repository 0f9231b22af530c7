-- ===== src/Prelude/Tables.antt =====
-- What a SQL statement does to one table, a list of rows: SELECT, UPDATE and DELETE under a WHERE
-- test, and ORDER BY as a stable insertion sort.
use Prim.Native.Nat.{ℕ, suc, ◌≤◌}
use mathlib.Core.Path.{◌≡◌, refl, subst}
use mathlib.Core.Bool.{Bool, true, false}
use mathlib.Core.Logic.{inl, inr}
use mathlib.Core.Option.{Option, none, some}
use mathlib.Core.List.{List, [], ◌∷◌, map}
use native.Mathlib.Omega.{arith}
use minmaxmusic3_web.Prelude.Tests.{if◌then◌else◌, Bool-cases}
use minmaxmusic3_web.Prelude.Lists.{All, length}

module _ {ℓ} {A : Type ℓ} where
  unfoldable pub select : (A → Bool) → List A → List A
  select p [] = []
  select p (x ∷ xs) = if p x then x ∷ select p xs else select p xs

  unfoldable pub first : (A → Bool) → List A → Option A
  first p [] = none
  first p (x ∷ xs) = if p x then some x else first p xs

  unfoldable pub update : (A → Bool) → (A → A) → List A → List A
  update p f [] = []
  update p f (x ∷ xs) = (if p x then f x else x) ∷ update p f xs

  unfoldable pub remove : (A → Bool) → List A → List A
  remove p [] = []
  remove p (x ∷ xs) = if p x then remove p xs else x ∷ remove p xs

  -- RowsAffected and COUNT(*).
  unfoldable pub count_rows : (A → Bool) → List A → ℕ
  count_rows p [] = 0
  count_rows p (x ∷ xs) = if p x then suc (count_rows p xs) else count_rows p xs

  unfoldable pub any_row : (A → Bool) → List A → Bool
  any_row p [] = false
  any_row p (x ∷ xs) = if p x then true else any_row p xs

  unfoldable pub insert_by : (A → A → Bool) → A → List A → List A
  insert_by before x [] = x ∷ []
  insert_by before x (y ∷ ys) = if before y x then y ∷ insert_by before x ys else x ∷ y ∷ ys

  unfoldable pub sort_by : (A → A → Bool) → List A → List A
  unfolding insert_by
  sort_by before [] = []
  sort_by before (x ∷ xs) = insert_by before x (sort_by before xs)

  pub update_none :
      (p : A → Bool) (f : A → A) (xs : List A) → count_rows p xs ≡ 0 → update p f xs ≡ xs
  unfolding update count_rows
  update_none p f [] h = refl
  update_none p f (x ∷ xs) h = ground (arith, update_none p f xs)

  pub remove_none : (p : A → Bool) (xs : List A) → count_rows p xs ≡ 0 → remove p xs ≡ xs
  unfolding remove count_rows
  remove_none p [] h = refl
  remove_none p (x ∷ xs) h = ground (arith, remove_none p xs)

  pub count-remove_self : (p : A → Bool) (xs : List A) → count_rows p (remove p xs) ≡ 0
  unfolding remove count_rows
  count-remove_self p [] = refl
  count-remove_self p (x ∷ xs) = ground (arith, count-remove_self p xs)

  pub count-remove-le :
      (p q : A → Bool) (xs : List A) → count_rows q (remove p xs) ≤ count_rows q xs
  unfolding remove count_rows
  count-remove-le p q [] = omega arith
  count-remove-le p q (x ∷ xs) = ground (arith, count-remove-le p q xs)

  pub select_none : (p : A → Bool) (xs : List A) → count_rows p xs ≡ 0 → select p xs ≡ []
  unfolding select count_rows
  select_none p [] h = refl
  select_none p (x ∷ xs) h = ground (arith, select_none p xs)

  pub first-none : (p : A → Bool) (xs : List A) → count_rows p xs ≡ 0 → first p xs ≡ none
  unfolding first count_rows
  first-none p [] h = refl
  first-none p (x ∷ xs) h = ground (arith, first-none p xs)

  -- The row that a query returns meets its WHERE test.
  pub first-test : (p : A → Bool) (xs : List A) (x : A) → first p xs ≡ some x → p x ≡ true
  unfolding first
  first-test p [] x h = cc
  first-test p (y ∷ xs) x h = elim (Bool-cases (p y)) [
    | inl t ↦ ground (arith, first-test p xs x)
    | inr f ↦ ground (arith, first-test p xs x)
  ]

  pub length-select : (p : A → Bool) (xs : List A) → length (select p xs) ≡ count_rows p xs
  unfolding select count_rows
  length-select p [] = refl
  length-select p (x ∷ xs) = ground (arith, length-select p xs)

module _ {ℓ κ} {A : Type ℓ} {B : Type κ} where
  pub length-map-select :
      (f : A → B) (p : A → Bool) (xs : List A) → length (map f (select p xs)) ≡ count_rows p xs
  unfolding select count_rows
  length-map-select f p [] = refl
  length-map-select f p (x ∷ xs) = elim (Bool-cases (p x)) [
    | inl t ↦ rw t (omega (arith, length-map-select f p xs))
    | inr n ↦ rw n (length-map-select f p xs)
  ]

module _ {ℓ κ} {A : Type ℓ} (P : A → Type κ) (p : A → Bool) where
  pub All-update :
      (f : A → A) (xs : List A)
      → ((x : A) → p x ≡ true → P x → P (f x))
      → All P xs
      → All P (update p f xs)
  unfolding update
  All-update f [] step h = tt
  All-update f (x ∷ xs) step h = elim (Bool-cases (p x)) [
    | inl t ↦ rw t (step x t h.0, All-update f xs step h.1)
    | inr n ↦ rw n (h.0, All-update f xs step h.1)
  ]

  pub All-remove : (xs : List A) → All P xs → All P (remove p xs)
  unfolding remove
  All-remove [] h = tt
  All-remove (x ∷ xs) h = elim (Bool-cases (p x)) [
    | inl t ↦ rw t (All-remove xs h.1)
    | inr n ↦ rw n (h.0, All-remove xs h.1)
  ]

  pub All-select : (xs : List A) → ((x : A) → p x ≡ true → P x) → All P (select p xs)
  unfolding select
  All-select [] h = tt
  All-select (x ∷ xs) h = elim (Bool-cases (p x)) [
    | inl t ↦ rw t (h x t, All-select xs h)
    | inr n ↦ rw n (All-select xs h)
  ]

  pub All-first : (xs : List A) (x : A) → All P xs → first p xs ≡ some x → P x
  unfolding first
  All-first [] x h e = cc
  All-first (y ∷ xs) x h e = elim (Bool-cases (p y)) [
    | inl t ↦ subst P (ground arith) h.0
    | inr n ↦ All-first xs x h.1 (ground arith)
  ]
