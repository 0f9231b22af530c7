-- ===== src/Abc/Chords/Roots.antt =====
-- internal/abc/transpose.go: the root of a moved chord symbol.
use minmaxmusic3_web.Prelude.{
  ℕ, zero, suc, ◌+◌, ◌*◌, ◌/◌, ◌%◌, ◌<◌, ◌≡◌, refl, ap, subst, inl, inr, Bool, true, false, ◌&&◌,
  ◌||◌, not, some, [], ◌∷◌, ◌++◌, arith, ltb, leb, ◌==◌, if◌then◌else◌, Bool-cases, Text,
  has_prefix, ℤ, pos, negsuc, pos_part, neg_part, ◌+ℤ◌, ◌-ℤ◌, ltb_ℤ,
}
use minmaxmusic3_web.Abc.Pitch.{mod_floor, floor_div-mod, wrap_alt, go_rem}
use minmaxmusic3_web.Abc.Keys.{
  Interval, answer, refused, unspelled_chord, letters, index_byte, letter_at, natural_pc,
}
use minmaxmusic3_web.Abc.Chords.{
  Pitch, pitch_of, altered_by, pitch_name, chord_alt_text, moved_class, pitch_text, move_pitch,
}

-- Two pitches that are whole octaves apart.
abbrev pub SameClass : ℤ → ℤ → Type 0
SameClass a b =
    (up : ℕ) × (down : ℕ) × (pos_part a + neg_part b + 12 * up
      ≡ pos_part b + neg_part a + 12 * down)

wrap_alt-SameClass : (a : ℤ) → SameClass (wrap_alt a) a
unfolding wrap_alt mod_floor go_rem ◌+ℤ◌ ◌-ℤ◌
wrap_alt-SameClass (pos n) = ((if ltb 5 (n % 12) then n / 12 + 1 else n / 12), 0, ground arith)
wrap_alt-SameClass (negsuc n) =
    (0, (if leb 7 (suc n % 12) then suc n / 12 + 1 else suc n / 12), ground arith)

class_back : (n x w : ℤ) → SameClass w (x -ℤ n) → SameClass (n +ℤ w) x
unfolding ◌+ℤ◌ ◌-ℤ◌
class_back n x w (up, down, e) = (up, down, ground arith)

-- The text does not begin with an accidental of a chord symbol.
abbrev pub no_alter : Text → Bool
no_alter [] = true
no_alter (c ∷ s) = not (c == 35) && not (c == 98)

alter_back :
    (l : ℕ) (a : ℤ) (s : Text)
    → no_alter s ≡ true
    → ltb_ℤ a (negsuc 1) ≡ false
    → ltb_ℤ (pos 2) a ≡ false
    → altered_by l (chord_alt_text a ++ s) ≡ (pitch_of l a, s)
unfolding altered_by has_prefix chord_alt_text
alter_back l (pos zero) [] h low high = refl
alter_back l (pos zero) (c ∷ s) h low high = ground arith
alter_back l (pos (suc zero)) [] h low high = refl
alter_back l (pos (suc zero)) (c ∷ s) h low high = ground arith
alter_back l (pos (suc (suc zero))) s h low high = ground arith
alter_back l (pos (suc (suc (suc n)))) s h low high = absurd (ground arith)
alter_back l (negsuc zero) [] h low high = refl
alter_back l (negsuc zero) (c ∷ s) h low high = ground arith
alter_back l (negsuc (suc zero)) s h low high = ground arith
alter_back l (negsuc (suc (suc n))) s h low high = absurd (ground arith)

Named : ℕ → Type 0
Named l =
    (c : ℕ) × (letter_at letters l ≡ c ∷ [])
    × (index_byte letters c ≡ l)
    × ((ltb c 65 || ltb 71 c) ≡ false)

letters-Named : (l : ℕ) → l < 7 → Named l
unfolding letter_at index_byte Named
letters-Named zero h = (67, refl, refl, refl)
letters-Named (suc zero) h = (68, refl, refl, refl)
letters-Named (suc (suc zero)) h = (69, refl, refl, refl)
letters-Named (suc (suc (suc zero))) h = (70, refl, refl, refl)
letters-Named (suc (suc (suc (suc zero)))) h = (71, refl, refl, refl)
letters-Named (suc (suc (suc (suc (suc zero))))) h = (65, refl, refl, refl)
letters-Named (suc (suc (suc (suc (suc (suc zero)))))) h = (66, refl, refl, refl)
letters-Named (suc (suc (suc (suc (suc (suc (suc l))))))) h = absurd (omega arith)

pitch_text_back :
    (l : ℕ) (a : ℤ) (out tail : Text)
    → l < 7
    → no_alter tail ≡ true
    → pitch_text l a ≡ answer out
    → pitch_name (out ++ tail) ≡ some (pitch_of l a, tail)
unfolding pitch_name Named
pitch_text_back l a out tail below clean e =
    elim (Bool-cases (ltb_ℤ a (negsuc 1) || ltb_ℤ (pos 2) a)) [
      | inl t ↦ absurd (refused_not (rw t at e))
      | inr f ↦
          subst (λ x. pitch_name (x ++ tail) ≡ some (pitch_of l a, tail)) (answer_inj (rw f at e))
            (named (ground arith) (ground arith) (letters-Named l below))
    ]
  where
    refused_not : refused unspelled_chord ≡ answer out → ⊥
    refused_not h = cc

    answer_inj : {v : Text} → answer v ≡ answer out → v ≡ out
    answer_inj h = cc

    named :
        ltb_ℤ a (negsuc 1) ≡ false
        → ltb_ℤ (pos 2) a ≡ false
        → Named l
        → pitch_name (letter_at letters l ++ chord_alt_text a ++ tail) ≡ some (pitch_of l a, tail)
    named low high (c, at, index, inside) =
        rw at (rw inside (rw index (ap some (alter_back l a tail clean low high))))

-- The root that a chord symbol is moved to is read back, before any quality that does not begin
-- with an accidental, as a pitch of the class that the interval leads to, its letter the interval's
-- steps away.
pub moved_root-SameClass :
    (iv : Interval) (p : Pitch) (out quality : Text)
    → no_alter quality ≡ true
    → move_pitch iv p ≡ answer out
    → (q : Pitch) × (pitch_name (out ++ quality) ≡ some (q, quality))
      × SameClass (natural_pc q.letter +ℤ q.alt) (moved_class iv p)
      × (q.letter ≡ pos_part (mod_floor (pos p.letter +ℤ iv.steps) 7))
unfolding move_pitch
moved_root-SameClass iv p out quality clean e =
    let l = pos_part (mod_floor (pos p.letter +ℤ iv.steps) 7) in
    let a = wrap_alt (moved_class iv p -ℤ natural_pc l) in
    (
      pitch_of l a,
      pitch_text_back l a out quality (floor_div-mod (pos p.letter +ℤ iv.steps)).0 clean e,
      class_back (natural_pc l) (moved_class iv p) a
          (wrap_alt-SameClass (moved_class iv p -ℤ natural_pc l)),
      refl,
    )
