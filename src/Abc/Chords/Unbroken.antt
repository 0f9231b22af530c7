-- ===== src/Abc/Chords/Unbroken.antt =====
-- internal/abc/transpose.go: a chord symbol is written without a line break.
use minmaxmusic3_web.Prelude.{
  ℕ, refl, sym, ◌||◌, Option, none, some, [], ◌∷◌, ◌++◌, arith, ltb, ◌==◌, if_cases, Text, codes,
  has_prefix, ℤ, pos, negsuc, pos_part, ◌+ℤ◌, ◌-ℤ◌, ltb_ℤ, has_byte,
}
use minmaxmusic3_web.Abc.Pitch.{mod_floor, wrap_alt}
use minmaxmusic3_web.Abc.Keys.{
  natural_pc, index_byte, Interval, Answer, answer, refused, letters, letter_at,
}
use minmaxmusic3_web.Abc.Chords.{
  Pitch, moved_class, altered_by, pitch_name, chord_alt_text, pitch_text, move_pitch, last_slash,
  slash_here, bass_named, bass_after, bass_of, rooted, slashed, with_bass, named_chord, chord,
}
use minmaxmusic3_web.Abc.OneLine.{
  OneLine, append-OneLine, cons-OneLine, tail-OneLine, head-OneLine, drop_one-OneLine,
  drop_two-OneLine, letter-OneLine,
}

chord_alt_text-OneLine : (a : ℤ) → OneLine (chord_alt_text a)
unfolding chord_alt_text has_byte
chord_alt_text-OneLine a = ground arith

-- An answered text has no line break.
abbrev pub OneAnswer : Answer Text → Type 0
OneAnswer (answer t) = OneLine t
OneAnswer (refused e) = Unit {0}

pitch_text-OneAnswer : (l : ℕ) (alt : ℤ) → OneAnswer (pitch_text l alt)
pitch_text-OneAnswer l alt =
    if_cases OneAnswer (ltb_ℤ alt (negsuc 1) || ltb_ℤ (pos 2) alt) _ _ (λ t. tt)
      (λ f.
        append-OneLine (letter_at letters l) (chord_alt_text alt) (letter-OneLine l)
          (chord_alt_text-OneLine alt))

move_pitch-OneAnswer : (iv : Interval) (p : Pitch) → OneAnswer (move_pitch iv p)
unfolding move_pitch
move_pitch-OneAnswer iv p =
    let l = pos_part (mod_floor (pos p.letter +ℤ iv.steps) 7) in
    pitch_text-OneAnswer l (wrap_alt (moved_class iv p -ℤ natural_pc l))

altered_by-OneLine : (l : ℕ) (s : Text) → OneLine s → OneLine (altered_by l s).1
unfolding altered_by
altered_by-OneLine l s h =
    let P = λ (x : Pitch × Text). OneLine x.1 in
    if_cases P (has_prefix s (codes "##")) _ _ (λ t. drop_two-OneLine s h)
      (λ f.
        if_cases P (has_prefix s (codes "bb")) _ _ (λ t. drop_two-OneLine s h)
          (λ f.
            if_cases P (has_prefix s (codes "#")) _ _ (λ t. drop_one-OneLine s h)
              (λ f.
                if_cases P (has_prefix s (codes "b")) _ _ (λ t. drop_one-OneLine s h) (λ f. h))))

abbrev OnePitch : Option (Pitch × Text) → Type 0
OnePitch none = Unit {0}
OnePitch (some (p, s)) = OneLine s

pitch_name-OnePitch : (s : Text) → OneLine s → OnePitch (pitch_name s)
unfolding pitch_name
pitch_name-OnePitch [] h = tt
pitch_name-OnePitch (c ∷ s) h =
    if_cases OnePitch (ltb c 65 || ltb 71 c) _ _ (λ t. tt)
      (λ f. altered_by-OneLine (index_byte letters c) s (tail-OneLine c s h))

abbrev OneSlash : Option (Text × Text) → Type 0
OneSlash none = Unit {0}
OneSlash (some (a, b)) = OneLine a × OneLine b

slash_here-OneSlash :
    (c : ℕ) (s : Text) (o : Option (Text × Text))
    → OneLine (c ∷ s)
    → OneSlash o
    → OneSlash (slash_here c s o)
slash_here-OneSlash c s (some (a, b)) h (k, m) = (cons-OneLine c a (head-OneLine c s h) k, m)
slash_here-OneSlash c s none h k =
    if_cases OneSlash (c == 47) _ _ (λ t. (unfold has_byte in refl, tail-OneLine c s h)) (λ f. tt)

last_slash-OneSlash : (s : Text) → OneLine s → OneSlash (last_slash s)
unfolding last_slash
last_slash-OneSlash [] h = tt
last_slash-OneSlash (c ∷ s) h =
    slash_here-OneSlash c s (last_slash s) h (last_slash-OneSlash s (tail-OneLine c s h))

abbrev OneBass : Option (Text × Pitch) → Type 0
OneBass none = Unit {0}
OneBass (some (s, p)) = OneLine s

bass_named-OneBass :
    (quality : Text) (o : Option (Pitch × Text)) → OneLine quality → OneBass (bass_named quality o)
bass_named-OneBass quality none h = tt
bass_named-OneBass quality (some (b, [])) h = h
bass_named-OneBass quality (some (b, c ∷ s)) h = tt

bass_after-OneBass : (o : Option (Text × Text)) → OneSlash o → OneBass (bass_after o)
bass_after-OneBass none h = tt
bass_after-OneBass (some (a, b)) (h, k) = bass_named-OneBass a (pitch_name b) h

rooted-OneAnswer :
    (a : Answer Text) (tail : Text) → OneAnswer a → OneLine tail → OneAnswer (rooted a tail)
rooted-OneAnswer (refused e) tail h k = tt
rooted-OneAnswer (answer root) tail h k = append-OneLine root tail h k

slashed-OneAnswer :
    (a b : Answer Text) (quality : Text)
    → OneAnswer a
    → OneLine quality
    → OneAnswer b
    → OneAnswer (slashed a quality b)
slashed-OneAnswer a (refused e) quality h k m = tt
slashed-OneAnswer a (answer bass) quality h k m =
    rooted-OneAnswer a (quality ++ 47 ∷ bass) h
      (append-OneLine quality (47 ∷ bass) k (cons-OneLine 47 bass refl m))

with_bass-OneAnswer :
    (iv : Interval) (root : Pitch) (quality : Text) (o : Option (Text × Pitch))
    → OneLine quality
    → OneBass o
    → OneAnswer (with_bass iv root quality o)
with_bass-OneAnswer iv root quality none h k =
    rooted-OneAnswer (move_pitch iv root) quality (move_pitch-OneAnswer iv root) h
with_bass-OneAnswer iv root quality (some (kept, b)) h k =
    slashed-OneAnswer (move_pitch iv root) (move_pitch iv b) kept (move_pitch-OneAnswer iv root) k
      (move_pitch-OneAnswer iv b)

named_chord-OneAnswer :
    (iv : Interval) (sym : Text) (o : Option (Pitch × Text))
    → OneLine sym
    → OnePitch o
    → OneAnswer (named_chord iv sym o)
unfolding bass_of
named_chord-OneAnswer iv sym none h k = h
named_chord-OneAnswer iv sym (some (root, quality)) h k =
    with_bass-OneAnswer iv root quality (bass_of quality) k
      (bass_after-OneBass (last_slash quality) (last_slash-OneSlash quality k))

pub chord-OneAnswer : (iv : Interval) (sym : Text) → OneLine sym → OneAnswer (chord iv sym)
unfolding chord
chord-OneAnswer iv sym h =
    named_chord-OneAnswer iv sym (pitch_name sym) h (pitch_name-OnePitch sym h)
