-- ===== src/Prelude/Windows.antt =====
-- A window of a list that is read with one entry more than it shows.
use Prim.Native.Nat.{ℕ, zero, suc, ◌-◌}
use mathlib.Core.Path.{◌≡◌, refl}
use mathlib.Core.List.{List, [], ◌∷◌}
use native.Mathlib.Omega.{arith}
use minmaxmusic3_web.Prelude.Tests.{ltb, if◌then◌else◌}
use minmaxmusic3_web.Prelude.Lists.{length, take, drop}

module _ {ℓ} {A : Type ℓ} where
  pub length-drop : (n : ℕ) (xs : List A) → length (drop n xs) ≡ length xs - n
  length-drop zero xs = omega arith
  length-drop (suc n) [] = omega arith
  length-drop (suc n) (x ∷ xs) = omega (arith, length-drop n xs)

  -- One entry more than the window tells whether there is more.
  pub length-lookahead :
      (n : ℕ) (xs : List A) → ltb n (length (take (suc n) xs)) ≡ ltb n (length xs)
  length-lookahead zero [] = refl
  length-lookahead zero (x ∷ xs) = ground arith
  length-lookahead (suc n) [] = ground arith
  length-lookahead (suc n) (x ∷ xs) = ground (arith, length-lookahead n xs)

  pub take-lookahead :
      (n : ℕ) (xs : List A)
      → (if ltb n (length (take (suc n) xs)) then take n (take (suc n) xs) else take (suc n) xs)
        ≡ take n xs
  take-lookahead zero [] = refl
  take-lookahead zero (x ∷ xs) = ground arith
  take-lookahead (suc n) [] = ground arith
  take-lookahead (suc n) (x ∷ xs) = ground (arith, take-lookahead n xs)
