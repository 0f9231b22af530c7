-- ===== src/Abc/Tests.antt =====
-- internal/abc/transpose.go: transpositions on concrete scores, and the theorems applied to them.
use minmaxmusic3_web.Abc.Scores.Lines.{transpose-KeepsLines, KeepsLines}
use minmaxmusic3_web.Abc.Scores.Ending.{transpose-Ends, NoBareField}
use minmaxmusic3_web.Abc.Scores.{
  transpose, rewrite, line, set_key, music, turn, done, failed, panicked, lines_of,
}
use minmaxmusic3_web.Prelude.{
  ◌≡◌, refl, sym, subst, ◌⊎◌, true, false, none, some, List, [], ◌∷◌, arith, All, Text, codes,
  trim_space, has_prefix, ℤ, pos, negsuc, contains, split_byte, join_byte, cut_byte,
}
use minmaxmusic3_web.Abc.Pitch.{neg}
use minmaxmusic3_web.Abc.Keys.{
  Key, Interval, answer, key_of, signature, transpose_key, parse_key, target_key, signature_of,
  key_signatures, key_text, best_key, index_byte, Refusal,
}
use minmaxmusic3_web.Abc.Keys.Landing.{accepted_key-Lands, Lands, tonic}
use minmaxmusic3_web.Abc.Keys.Choice.{fewest_accidentals, Beaten}
use minmaxmusic3_web.Abc.Notes.{
  Rewriter, note, noted, touch, position, read_head, spell, accidental, octave_marks,
}
use minmaxmusic3_web.Abc.Notes.Spelling.{Bar}
use minmaxmusic3_web.Abc.Notes.Pitches.{note_sounds_moved, Moves}
use minmaxmusic3_web.Abc.Chords.{
  pitch_of, chord, pitch_name, move_pitch, bass_of, last_slash, altered_by,
}
use minmaxmusic3_web.Abc.Chords.Symbols.{RootMoves, chord-RootMoves}

c_minor_down : transpose_key (codes "Cm") (negsuc 10) ≡ answer (codes "C#m")
unfolding transpose_key parse_key target_key
c_minor_down = refl

accepted_key_example : Lands (codes "Cm") (negsuc 10)
unfolding signature_of
accepted_key_example =
    accepted_key-Lands (codes "Cm") (neg 3) (negsuc 10) refl (omega arith) (omega arith)

fewest_example :
    (to : Key) × (n : ℤ) × (best_key (pos 6) false ≡ some (to, n))
    × (signature_of key_signatures (key_text to) ≡ some n)
    × (tonic to (pos 0) ≡ pos 6)
    × (to.minor ≡ false)
    × Beaten (pos 6) false n
fewest_example = fewest_accidentals 6 false (omega arith)

-- From E flat major to F major.
abbrev up_two : Rewriter
up_two = record {
  keyed = true;
  iv = record { semitones = pos 2; steps = pos 1 };
  src_sig = signature (key_of 2 (negsuc 0) false);
  dst_sig = signature (key_of 3 (pos 0) false);
  src_bar = λ p. none;
  dst_touched = λ l. false;
}

abbrev no_bar : Bar
no_bar = λ l o. none

abbrev after_e_sharp : Rewriter
after_e_sharp = record up_two {
  src_bar = noted (position 2 (pos 5)) (some (pos 1)) (λ p. none);
  dst_touched = touch 3 (λ l. false);
}

e_sharp : note up_two (codes "^e2") ≡ answer (some (codes "^^f", codes "2", after_e_sharp))
unfolding note read_head spell accidental octave_marks has_prefix signature
e_sharp = refl

note_example :
    Moves true up_two no_bar no_bar
      (codes "^e2")
      (codes "^^f")
      (codes "2")
      (codes "2")
      after_e_sharp
note_example =
    note_sounds_moved true up_two after_e_sharp no_bar no_bar (codes "^e2") (codes "^^f")
      (codes "2") (codes "2") (λ l o h. refl) (λ l o h. refl) refl e_sharp

abbrev two_up : Interval
two_up = record { semitones = pos 2; steps = pos 1 }

half_diminished : chord two_up (codes "F#m7b5/A") ≡ answer (codes "G#m7b5/B")
unfolding chord pitch_name move_pitch bass_of last_slash altered_by has_prefix index_byte
half_diminished = refl

chord_example : RootMoves two_up (pitch_of 3 (pos 1)) (codes "G#m7b5/B")
unfolding pitch_name altered_by has_prefix index_byte
chord_example =
    chord-RootMoves two_up (codes "F#m7b5/A") (codes "m7b5/A") (codes "G#m7b5/B")
      (pitch_of 3 (pos 1)) refl refl half_diminished

abbrev tune : Text
tune = codes "X:1\nK:C\n\"C\"CDEF|[K:G]f2 z\n% end"

abbrev tune_up : Text
tune_up = codes "X:1\nK:D\n\"D\"DEFG|[K:A]g2 z\n% end"

tune_moves : transpose tune (pos 2) ≡ done tune_up
unfolding transpose rewrite line set_key music turn split_byte join_byte cut_byte trim_space
    has_prefix
tune_moves = refl

bare_field_panics : transpose (codes "K:C\n[]:") (pos 2) ≡ panicked
unfolding transpose rewrite line set_key music turn split_byte join_byte cut_byte trim_space
    has_prefix
bare_field_panics = refl

abbrev tune_lines : List Text
tune_lines = codes "X:1" ∷ codes "K:C" ∷ codes "\"C\"CDEF|[K:G]f2 z" ∷ codes "% end" ∷ []

tune_split : lines_of tune ≡ tune_lines
unfolding split_byte
tune_split = refl

tune_free : All NoBareField tune_lines
unfolding contains has_prefix
tune_free = (refl, (refl, (refl, (refl, tt))))

transpose_ends_example :
    ((out : Text) × (transpose tune (pos 2) ≡ done out))
    ⊎ ((e : Refusal) × (transpose tune (pos 2) ≡ failed e))
transpose_ends_example =
    transpose-Ends tune (pos 2) (subst (All NoBareField) (sym tune_split) tune_free)

transpose_lines_example : KeepsLines (lines_of tune) (lines_of tune_up)
transpose_lines_example = transpose-KeepsLines tune tune_up (pos 2) refl tune_moves
