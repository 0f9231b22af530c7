-- ===== src/Llm/Clipping.antt =====
-- internal/llm/llm.go, clip: a field is cut to its bound, and never inside a character.
use minmaxmusic3_web.Prelude.{
  ℕ, zero, suc, ◌≤◌, ◌≡◌, refl, ap, ◌⊎◌, inl, inr, true, [], ◌∷◌, ◌++◌, arith, leb, leb→le,
  Bool-cases, if_cases, length, take, drop, length-take-le, Text,
}
use minmaxmusic3_web.Llm.{clip, rune_floor, starts_rune}

take-drop : (n : ℕ) (s : Text) → take n s ++ drop n s ≡ s
take-drop zero s = refl
take-drop (suc n) [] = refl
take-drop (suc n) (b ∷ s) = ap (λ t. b ∷ t) (take-drop n s)

rune_floor-bounds :
    (s : Text) (n : ℕ)
    → (rune_floor s n ≤ n) × ((rune_floor s n ≡ 0) ⊎ (starts_rune (drop (rune_floor s n) s) ≡ true))
unfolding rune_floor
rune_floor-bounds s zero = (omega arith, inl refl)
rune_floor-bounds s (suc n) =
    let (low, at) = rune_floor-bounds s n in
    if_cases (λ (k : ℕ). (k ≤ suc n) × ((k ≡ 0) ⊎ (starts_rune (drop k s) ≡ true)))
      (starts_rune (drop (suc n) s)) _ _ (λ t. (omega arith, inr t)) (λ f. (omega (arith, low), at))

-- What is kept of a field: all of a short one, and of a long one the bytes before some rune.
abbrev pub Clips : Text → (n : ℕ) → (kept : Text) → Type 0
Clips s n kept =
    (length kept ≤ n)
    × ((rest : Text) × (kept ++ rest ≡ s) × ((kept ≡ []) ⊎ (starts_rune rest ≡ true)))
    × (length s ≤ n → kept ≡ s)

-- A clipped field is a beginning of the field of at most n bytes, the whole of it where it fits,
-- and it is not cut inside a UTF-8 character: what follows begins with a byte that starts a rune,
-- unless nothing is kept.
pub clip-Clips : (s : Text) (n : ℕ) → Clips s n (clip s n)
unfolding clip
clip-Clips s n = elim (Bool-cases (leb (length s) n)) [
  | inl t ↦ rw t (leb→le (length s) n t, ([], append_nil s, inr refl), λ h. refl)
  | inr f ↦
      let (low, at) = rune_floor-bounds s n in
      rw f (
        omega (arith, low, length-take-le (rune_floor s n) s),
        (drop (rune_floor s n) s, take-drop (rune_floor s n) s, started (rune_floor s n) at),
        λ h. absurd (ground arith),
      )
]
  where
    append_nil : (t : Text) → t ++ [] ≡ t
    append_nil [] = refl
    append_nil (b ∷ t) = ap (λ x. b ∷ x) (append_nil t)

    started :
        (k : ℕ)
        → (k ≡ 0) ⊎ (starts_rune (drop k s) ≡ true)
        → (take k s ≡ []) ⊎ (starts_rune (drop k s) ≡ true)
    started k (inl e) = inl (ap (λ m. take m s) e)
    started k (inr h) = inr h
