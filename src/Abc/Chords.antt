-- ===== src/Abc/Chords.antt =====
-- internal/abc/transpose.go: chord symbols. A pitch name is followed by the text that it leaves.
pub mod Unbroken
pub mod Symbols
pub mod Roots
use minmaxmusic3_web.Prelude.{
  ℕ, sym, ◌||◌, Option, none, some, [], ◌∷◌, ◌++◌, ltb, ◌==◌, if◌then◌else◌, drop, Text, codes,
  has_prefix, ℤ, pos, negsuc, pos_part, ◌+ℤ◌, ◌-ℤ◌, ltb_ℤ, eq_ℤ,
}
use minmaxmusic3_web.Abc.Pitch.{mod_floor, wrap_alt}
use minmaxmusic3_web.Abc.Keys.{
  Interval, Answer, answer, refused, unspelled_chord, letters, index_byte, letter_at, natural_pc,
}

pub record Pitch : Type 0 where
  pub letter : ℕ
  pub alt : ℤ

abbrev pub pitch_of : ℕ → ℤ → Pitch
pitch_of l a = record { letter = l; alt = a }

-- The loop over the four accidentals of a chord symbol.
unfoldable pub altered_by : ℕ → Text → Pitch × Text
altered_by l s =
    if has_prefix s (codes "##")
    then (pitch_of l (pos 2), drop 2 s)
    else if has_prefix s (codes "bb")
    then (pitch_of l (negsuc 1), drop 2 s)
    else if has_prefix s (codes "#")
    then (pitch_of l (pos 1), drop 1 s)
    else if has_prefix s (codes "b")
    then (pitch_of l (negsuc 0), drop 1 s)
    else (pitch_of l (pos 0), s)

unfoldable pub pitch_name : Text → Option (Pitch × Text)
unfolding altered_by index_byte
pitch_name [] = none
pitch_name (c ∷ s) =
    if ltb c 65 || ltb 71 c then none else some (altered_by (index_byte letters c) s)

unfoldable pub chord_alt_text : ℤ → Text
chord_alt_text a =
    if eq_ℤ a (pos 2)
    then codes "##"
    else if eq_ℤ a (pos 1)
    then codes "#"
    else if eq_ℤ a (negsuc 0)
    then codes "b"
    else if eq_ℤ a (negsuc 1)
    then codes "bb"
    else []

-- naturalPC[p.letter] + p.alt + r.iv.semitones
abbrev pub moved_class : Interval → Pitch → ℤ
moved_class iv p = natural_pc p.letter +ℤ p.alt +ℤ iv.semitones

abbrev pub pitch_text : ℕ → ℤ → Answer Text
pitch_text l alt =
    if ltb_ℤ alt (negsuc 1) || ltb_ℤ (pos 2) alt
    then refused unspelled_chord
    else answer (letter_at letters l ++ chord_alt_text alt)

unfoldable pub move_pitch : Interval → Pitch → Answer Text
unfolding mod_floor wrap_alt natural_pc ◌+ℤ◌ ◌-ℤ◌ letter_at chord_alt_text
move_pitch iv p =
    let l = pos_part (mod_floor (pos p.letter +ℤ iv.steps) 7) in
    pitch_text l (wrap_alt (moved_class iv p -ℤ natural_pc l))

-- strings.LastIndexByte of a slash, as the texts before and after it.
abbrev pub slash_here : ℕ → Text → Option (Text × Text) → Option (Text × Text)
slash_here c s (some (before, after)) = some (c ∷ before, after)
slash_here c s none = if c == 47 then some ([], s) else none

unfoldable pub last_slash : Text → Option (Text × Text)
last_slash [] = none
last_slash (c ∷ s) = slash_here c s (last_slash s)

-- The bass is a pitch name up to the end of the symbol.
abbrev pub bass_named : Text → Option (Pitch × Text) → Option (Text × Pitch)
bass_named quality (some (b, [])) = some (quality, b)
bass_named quality _ = none

abbrev pub bass_after : Option (Text × Text) → Option (Text × Pitch)
bass_after none = none
bass_after (some (quality, after)) = bass_named quality (pitch_name after)

unfoldable pub bass_of : Text → Option (Text × Pitch)
unfolding last_slash pitch_name
bass_of quality = bass_after (last_slash quality)

-- The root is written before the quality and the bass, which is moved first.
abbrev pub rooted : Answer Text → (tail : Text) → Answer Text
rooted (refused e) tail = refused e
rooted (answer root) tail = answer (root ++ tail)

abbrev pub slashed : Answer Text → (quality : Text) → Answer Text → Answer Text
slashed root quality (refused e) = refused e
slashed root quality (answer bass) = rooted root (quality ++ 47 ∷ bass)

abbrev pub with_bass : Interval → Pitch → Text → Option (Text × Pitch) → Answer Text
with_bass iv root quality none = rooted (move_pitch iv root) quality
with_bass iv root quality (some (kept, b)) = slashed (move_pitch iv root) kept (move_pitch iv b)

abbrev pub named_chord : Interval → Text → Option (Pitch × Text) → Answer Text
named_chord iv sym none = answer sym
named_chord iv sym (some (root, quality)) = with_bass iv root quality (bass_of quality)

unfoldable pub chord : Interval → Text → Answer Text
unfolding pitch_name move_pitch bass_of
chord iv sym = named_chord iv sym (pitch_name sym)
