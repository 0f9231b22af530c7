-- ===== src/Prelude/Counts.antt =====
-- How SELECT, UPDATE, DELETE and INSERT act on counts, on the first row found and on membership.
use Prim.Native.Nat.{suc, ◌+◌, ◌≤◌}
use mathlib.Core.Path.{◌≡◌, refl, subst}
use mathlib.Core.Bool.{Bool, true, false, not, ◌&&◌, ◌||◌}
use mathlib.Core.Logic.{inl, inr, ◌⊎◌}
use mathlib.Core.Option.{none, some}
use mathlib.Core.List.{List, [], ◌∷◌, ◌++◌}
use native.Mathlib.Omega.{arith}
use minmaxmusic3_web.Prelude.Tests.{Bool-cases}
use minmaxmusic3_web.Prelude.Lists.{All}
use minmaxmusic3_web.Prelude.Tables.{first, update, remove, count_rows, any_row}

module _ {A : Type 0} where
  -- A row stands in a table.
  abbrev pub Has : A → List A → Type 0
  Has r [] = ⊥
  Has r (x ∷ xs) = (x ≡ r) ⊎ Has r xs

  -- The rows that an UPDATE does not meet stay as they are.
  pub Has-update :
      (p : A → Bool) (f : A → A) (r : A) (xs : List A)
      → p r ≡ false
      → Has r xs
      → Has r (update p f xs)
  unfolding update
  Has-update p f r [] h m = absurd m
  Has-update p f r (x ∷ xs) h (inl e) = inl (rw (e, h))
  Has-update p f r (x ∷ xs) h (inr m) = inr (Has-update p f r xs h m)

  pub Has-append_left : (r : A) (xs ys : List A) → Has r xs → Has r (xs ++ ys)
  Has-append_left r [] ys m = absurd m
  Has-append_left r (x ∷ xs) ys (inl e) = inl e
  Has-append_left r (x ∷ xs) ys (inr m) = inr (Has-append_left r xs ys m)

  pub All-Has {κ} : (P : A → Type κ) (r : A) (xs : List A) → All P xs → Has r xs → P r
  All-Has P r [] h m = absurd m
  All-Has P r (x ∷ xs) h (inl e) = subst P e h.0
  All-Has P r (x ∷ xs) h (inr m) = All-Has P r xs h.1 m

  pub Has-first : (p : A → Bool) (xs : List A) (r : A) → first p xs ≡ some r → Has r xs
  unfolding first
  Has-first p [] r e = cc
  Has-first p (x ∷ xs) r e = elim (Bool-cases (p x)) [
    | inl t ↦ inl (ground arith)
    | inr n ↦ inr (Has-first p xs r (ground arith))
  ]

  pub first-none_count : (p : A → Bool) (xs : List A) → first p xs ≡ none → count_rows p xs ≡ 0
  unfolding first count_rows
  first-none_count p [] h = refl
  first-none_count p (x ∷ xs) h = ground (arith, first-none_count p xs)

  pub first-some_count :
      (p : A → Bool) (xs : List A) (x : A) → first p xs ≡ some x → suc 0 ≤ count_rows p xs
  unfolding first count_rows
  first-some_count p [] x h = cc
  first-some_count p (y ∷ xs) x h = ground (arith, first-some_count p xs x)

  pub count-append :
      (p : A → Bool) (xs ys : List A) → count_rows p (xs ++ ys) ≡ count_rows p xs + count_rows p ys
  unfolding count_rows
  count-append p [] ys = omega arith
  count-append p (x ∷ xs) ys = ground (arith, count-append p xs ys)

  pub first-append :
      (p : A → Bool) (xs ys : List A) → count_rows p xs ≡ 0 → first p (xs ++ ys) ≡ first p ys
  unfolding first count_rows
  first-append p [] ys h = refl
  first-append p (x ∷ xs) ys h = ground (arith, first-append p xs ys)

  pub any_row-false_count :
      (p q : A → Bool) (xs : List A)
      → ((x : A) → q x ≡ true → p x ≡ true)
      → any_row p xs ≡ false
      → count_rows q xs ≡ 0
  unfolding any_row count_rows
  any_row-false_count p q [] sub h = refl
  any_row-false_count p q (x ∷ xs) sub h = ground (arith, sub x, any_row-false_count p q xs sub)

  pub any_row-Has :
      (p : A → Bool) (xs : List A) (r : A) → Has r xs → p r ≡ true → any_row p xs ≡ true
  unfolding any_row
  any_row-Has p [] r m h = absurd m
  any_row-Has p (x ∷ xs) r (inl e) h = rw (e, h)
  any_row-Has p (x ∷ xs) r (inr m) h = ground (arith, any_row-Has p xs r m h)

  pub count-sub :
      (p q : A → Bool) (xs : List A)
      → ((x : A) → q x ≡ true → p x ≡ true)
      → count_rows q xs ≤ count_rows p xs
  unfolding count_rows
  count-sub p q [] sub = omega arith
  count-sub p q (x ∷ xs) sub = ground (arith, sub x, count-sub p q xs sub)

  pub count-none : (p : A → Bool) (xs : List A) → All (λ x. p x ≡ false) xs → count_rows p xs ≡ 0
  unfolding count_rows
  count-none p [] h = refl
  count-none p (x ∷ xs) h = ground (arith, count-none p xs h.1)

  pub All-count_zero :
      (p : A → Bool) (xs : List A) → count_rows p xs ≡ 0 → All (λ x. p x ≡ false) xs
  unfolding count_rows
  All-count_zero p [] h = tt
  All-count_zero p (x ∷ xs) h = elim (Bool-cases (p x)) [
    | inl t ↦ absurd (ground arith)
    | inr n ↦ (n, All-count_zero p xs (ground arith))
  ]

  -- An UPDATE that leaves the test's answer alone leaves its count alone.
  pub count-update_same :
      (p q : A → Bool) (f : A → A) (xs : List A)
      → ((x : A) → q (f x) ≡ q x)
      → count_rows q (update p f xs) ≡ count_rows q xs
  unfolding update count_rows
  count-update_same p q f [] same = refl
  count-update_same p q f (x ∷ xs) same = ground (arith, same x, count-update_same p q f xs same)

  -- The rows outside the WHERE test are counted as before.
  pub count-update_others :
      (p q : A → Bool) (f : A → A) (xs : List A)
      → ((x : A) → p (f x) ≡ p x)
      → count_rows (λ x. q x && not (p x)) (update p f xs) ≡ count_rows (λ x. q x && not (p x)) xs
  unfolding update count_rows
  count-update_others p q f [] same = refl
  count-update_others p q f (x ∷ xs) same =
      ground (arith, same x, count-update_others p q f xs same)

  pub count-remove_others :
      (p q : A → Bool) (xs : List A)
      → count_rows (λ x. q x && not (p x)) (remove p xs) ≡ count_rows (λ x. q x && not (p x)) xs
  unfolding remove count_rows
  count-remove_others p q [] = refl
  count-remove_others p q (x ∷ xs) = ground (arith, count-remove_others p q xs)

  pub count-outside :
      (p q : A → Bool) (xs : List A)
      → count_rows p xs ≡ 0
      → count_rows (λ x. q x && not (p x)) xs ≡ count_rows q xs
  unfolding count_rows
  count-outside p q [] h = refl
  count-outside p q (x ∷ xs) h = ground (arith, count-outside p q xs)

  -- Where a key is unique and its row fails `q`, every row that meets `q` has another key.
  pub count-unique_outside :
      (p q : A → Bool) (xs : List A) (u : A)
      → count_rows p xs ≤ 1
      → first p xs ≡ some u
      → q u ≡ false
      → count_rows (λ x. q x && not (p x)) xs ≡ count_rows q xs
  unfolding count_rows first
  count-unique_outside p q [] u one e n = cc
  count-unique_outside p q (x ∷ xs) u one e n = elim (Bool-cases (p x)) [
    | inl t ↦ ground (arith, count-outside p q xs)
    | inr f ↦ ground (arith, count-unique_outside p q xs u)
  ]

  -- A DELETE hides nothing from a query for other rows.
  pub first-remove_apart :
      (p q : A → Bool) (xs : List A)
      → ((x : A) → q x ≡ true → p x ≡ false)
      → first q (remove p xs) ≡ first q xs
  unfolding first remove
  first-remove_apart p q [] apart = refl
  first-remove_apart p q (x ∷ xs) apart = ground (arith, apart x, first-remove_apart p q xs apart)

  pub first-update_apart :
      (p q : A → Bool) (f : A → A) (xs : List A)
      → ((x : A) → q x ≡ true → p x ≡ false)
      → ((x : A) → p x ≡ true → q (f x) ≡ false)
      → first q (update p f xs) ≡ first q xs
  unfolding first update
  first-update_apart p q f [] apart apart' = refl
  first-update_apart p q f (x ∷ xs) apart apart' =
      ground (arith, apart x, apart' x, first-update_apart p q f xs apart apart')

  pub any_row-append :
      (p : A → Bool) (xs ys : List A) → any_row p (xs ++ ys) ≡ (any_row p xs || any_row p ys)
  unfolding any_row
  any_row-append p [] ys = refl
  any_row-append p (x ∷ xs) ys = ground (arith, any_row-append p xs ys)

  pub count-update_mono :
      (p q : A → Bool) (f : A → A) (xs : List A)
      → ((x : A) → q x ≡ true → q (f x) ≡ true)
      → count_rows q xs ≤ count_rows q (update p f xs)
  unfolding update count_rows
  count-update_mono p q f [] up = omega arith
  count-update_mono p q f (x ∷ xs) up = ground (arith, up x, count-update_mono p q f xs up)

  pub first-update_self :
      (p : A → Bool) (f : A → A) (xs : List A) (u : A)
      → ((x : A) → p (f x) ≡ p x)
      → first p (update p f xs) ≡ some u
      → (x : A) × (u ≡ f x)
  unfolding first update
  first-update_self p f [] u keep e = cc
  first-update_self p f (x ∷ xs) u keep e = elim (Bool-cases (p x)) [
    | inl t ↦ (x, ground (arith, keep x))
    | inr n ↦ first-update_self p f xs u keep (ground arith)
  ]

  -- A statement that met a row gives one, with what holds of every row.
  pub All-witness {κ} :
      (P : A → Type κ) (p : A → Bool) (xs : List A)
      → 1 ≤ count_rows p xs
      → All P xs
      → (x : A) × (p x ≡ true) × P x
  unfolding count_rows
  All-witness P p [] h all = absurd (omega arith)
  All-witness P p (x ∷ xs) h all = elim (Bool-cases (p x)) [
    | inl t ↦ (x, t, all.0)
    | inr n ↦ All-witness P p xs (ground arith) all.1
  ]

  -- An UPDATE that takes rows out of its own WHERE test leaves none that meet it.
  pub count-update_away :
      (p : A → Bool) (f : A → A) (xs : List A)
      → ((x : A) → p (f x) ≡ false)
      → count_rows p (update p f xs) ≡ 0
  unfolding update count_rows
  count-update_away p f [] away = refl
  count-update_away p f (x ∷ xs) away = elim (Bool-cases (p x)) [
    | inl t ↦ rw t (rw (away x) (count-update_away p f xs away))
    | inr n ↦ rw n (rw n (count-update_away p f xs away))
  ]
