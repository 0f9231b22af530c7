-- ===== src/Abc/Chords/Symbols.antt =====
-- internal/abc/transpose.go: a whole chord symbol, with its bass.
use minmaxmusic3_web.Prelude.{
  ℕ, ◌≡◌, refl, sym, ap, ◌∙◌, subst, inl, inr, true, Option, none, some, [], ◌∷◌, ◌++◌, ◌==◌,
  ==_iff, Bool-cases, Text, pos, pos_part, ◌+ℤ◌,
}
use minmaxmusic3_web.Abc.Pitch.{mod_floor}
use minmaxmusic3_web.Abc.Keys.{Interval, Answer, answer, refused, natural_pc}
use minmaxmusic3_web.Abc.Chords.{
  Pitch, pitch_name, moved_class, move_pitch, rooted, slashed, last_slash, slash_here, bass_of,
  bass_after, bass_named, with_bass, named_chord, chord,
}
use minmaxmusic3_web.Abc.Chords.Roots.{no_alter, SameClass, moved_root-SameClass}

slash_here-split :
    (c : ℕ) (s : Text) (o : Option (Text × Text)) (b a : Text)
    → ((x y : Text) → o ≡ some (x, y) → s ≡ x ++ 47 ∷ y)
    → slash_here c s o ≡ some (b, a)
    → c ∷ s ≡ b ++ 47 ∷ a
slash_here-split c s (some (x, y)) b a split e =
    subst (λ (p : Text × Text). c ∷ s ≡ p.0 ++ 47 ∷ p.1) (inside e)
      (ap (λ t. c ∷ t) (split x y refl))
  where
    inside : {p q : Text × Text} → some p ≡ some q → p ≡ q
    inside h = cc
slash_here-split c s none b a split e = elim (Bool-cases (c == 47)) [
  | inl t ↦
      subst (λ (p : Text × Text). c ∷ s ≡ p.0 ++ 47 ∷ p.1) (inside (rw t at e))
        (ap (λ x. x ∷ s) ((==_iff c 47).0 t))
  | inr f ↦ absurd (none_not (rw f at e))
]
  where
    inside : {p q : Text × Text} → some p ≡ some q → p ≡ q
    inside h = cc

    none_not : {p : Text × Text} → none ≡ some p → ⊥
    none_not h = cc

last_slash-split : (s b a : Text) → last_slash s ≡ some (b, a) → s ≡ b ++ 47 ∷ a
unfolding last_slash
last_slash-split [] b a e = cc
last_slash-split (c ∷ s) b a e =
    slash_here-split c s (last_slash s) b a (λ x y h. last_slash-split s x y h) e

kept_head : (kept x y : Text) → no_alter (kept ++ 47 ∷ x) ≡ no_alter (kept ++ 47 ∷ y)
kept_head [] x y = refl
kept_head (c ∷ kept) x y = refl

-- The root of `out` is the root moved.
abbrev pub RootMoves : Interval → Pitch → Text → Type 0
RootMoves iv p out =
    (q : Pitch) × (rest : Text) × (pitch_name out ≡ some (q, rest))
    × SameClass (natural_pc q.letter +ℤ q.alt) (moved_class iv p)
    × (q.letter ≡ pos_part (mod_floor (pos p.letter +ℤ iv.steps) 7))

rooted-RootMoves :
    (iv : Interval) (p : Pitch) (a : Answer Text) (tail out : Text)
    → move_pitch iv p ≡ a
    → no_alter tail ≡ true
    → rooted a tail ≡ answer out
    → RootMoves iv p out
rooted-RootMoves iv p (refused x) tail out moved clean e = cc
rooted-RootMoves iv p (answer root) tail out moved clean e =
    let (q, named, class, letter) = moved_root-SameClass iv p root tail clean moved in
    subst (RootMoves iv p) (inside e) (q, tail, named, class, letter)
  where
    inside : {x y : Text} → answer x ≡ answer y → x ≡ y
    inside h = cc

bass_kept :
    (quality kept : Text) (b : Pitch) (o : Option (Text × Text))
    → last_slash quality ≡ o
    → bass_after o ≡ some (kept, b)
    → (after : Text) × (quality ≡ kept ++ 47 ∷ after)
bass_kept quality kept b none split e = cc
bass_kept quality kept b (some (x, after)) split e = (
  after,
  subst (λ (t : Text). quality ≡ t ++ 47 ∷ after) (named (pitch_name after) e)
      (last_slash-split quality x after split),
)
  where
    named : (n : Option (Pitch × Text)) → bass_named x n ≡ some (kept, b) → x ≡ kept
    named none h = cc
    named (some (p, [])) h = cc
    named (some (p, c ∷ t)) h = cc

slashed-RootMoves :
    (iv : Interval) (p : Pitch) (kept after out : Text) (a : Answer Text)
    → no_alter (kept ++ 47 ∷ after) ≡ true
    → slashed (move_pitch iv p) kept a ≡ answer out
    → RootMoves iv p out
slashed-RootMoves iv p kept after out (refused x) clean e = cc
slashed-RootMoves iv p kept after out (answer bass) clean e =
    rooted-RootMoves iv p (move_pitch iv p) (kept ++ 47 ∷ bass) out refl
      (kept_head kept bass after ∙ clean) e

-- A chord symbol that is moved, with or without a bass, begins with its root moved: a pitch of the
-- class the interval leads to, its letter the interval's steps away. The quality does not begin
-- with an accidental.
pub chord-RootMoves :
    (iv : Interval) (sym quality out : Text) (p : Pitch)
    → pitch_name sym ≡ some (p, quality)
    → no_alter quality ≡ true
    → chord iv sym ≡ answer out
    → RootMoves iv p out
unfolding chord bass_of
chord-RootMoves iv sym quality out p named clean e =
    of_bass (bass_of quality) refl (subst (λ o. named_chord iv sym o ≡ answer out) named e)
  where
    of_bass :
        (o : Option (Text × Pitch))
        → bass_of quality ≡ o
        → with_bass iv p quality o ≡ answer out
        → RootMoves iv p out
    of_bass none found w = rooted-RootMoves iv p (move_pitch iv p) quality out refl clean w
    of_bass (some (kept, b)) found w =
        let (after, split) = bass_kept quality kept b (last_slash quality) refl found in
        slashed-RootMoves iv p kept after out (move_pitch iv b)
          (subst (λ (t : Text). no_alter t ≡ true) split clean) w
