-- ===== src/Abc/Notes/Unbroken.antt =====
-- internal/abc/transpose.go: a note is written without a line break.
use minmaxmusic3_web.Prelude.{
  ℕ, zero, suc, ◌≡◌, refl, false, ◌||◌, Option, none, some, [], ◌∷◌, arith, ◌==◌, if_cases, Text,
  codes, has_prefix, ℤ, pos, negsuc, pos_part, ◌+ℤ◌, ◌-ℤ◌, ltb_ℤ, leb_ℤ, has_byte,
}
use minmaxmusic3_web.Abc.Pitch.{mod_floor, floor_div}
use minmaxmusic3_web.Abc.Keys.{Answer, answer, refused, letters, letter_at}
use minmaxmusic3_web.Abc.Notes.{
  Rewriter, accidental, accidental_text, octave_marks, read_head, note, note_text, note_letter,
  repeated, lowered, spell, pitch_at, spelled, with_rest, noted_head, marked, lettered, Head,
  is_mark, shifted, is_written, note_src, src_pitch, position,
}
use minmaxmusic3_web.Abc.OneLine.{
  OneLine, append-OneLine, cons-OneLine, tail-OneLine, drop_one-OneLine, drop_two-OneLine,
  letter-OneLine,
}

repeated-OneLine : (c n : ℕ) → (c == 10) ≡ false → OneLine (repeated c n)
unfolding repeated
repeated-OneLine c zero h = unfold has_byte in refl
repeated-OneLine c (suc n) h = cons-OneLine c (repeated c n) h (repeated-OneLine c n h)

lowered-OneLine : (s : Text) → OneLine (lowered s)
unfolding has_byte
lowered-OneLine [] = refl
lowered-OneLine (c ∷ s) = ground (arith, lowered-OneLine s)

note_text-OneLine : (l : ℕ) (octave : ℤ) → OneLine (note_text l octave)
unfolding note_text
note_text-OneLine l octave =
    if_cases OneLine (leb_ℤ (pos 5) octave) _ _
      (λ t.
        append-OneLine (lowered (letter_at letters l)) _ (lowered-OneLine (letter_at letters l))
          (repeated-OneLine 39 _ refl))
      (λ f. append-OneLine (letter_at letters l) _ (letter-OneLine l) (repeated-OneLine 44 _ refl))

accidental_text-OneLine : (a : ℤ) → OneLine (accidental_text a)
unfolding accidental_text has_byte
accidental_text-OneLine a = ground arith

accidental-OneLine : (s : Text) → OneLine s → OneLine (accidental s).1
unfolding accidental
accidental-OneLine s h =
    let P = λ (x : Option ℤ × Text). OneLine x.1 in
    if_cases P (has_prefix s (codes "^^")) _ _ (λ t. drop_two-OneLine s h)
      (λ f.
        if_cases P (has_prefix s (codes "__")) _ _ (λ t. drop_two-OneLine s h)
          (λ f.
            if_cases P (has_prefix s (codes "^")) _ _ (λ t. drop_one-OneLine s h)
              (λ f.
                if_cases P (has_prefix s (codes "_")) _ _ (λ t. drop_one-OneLine s h)
                  (λ f.
                    if_cases P (has_prefix s (codes "=")) _ _ (λ t. drop_one-OneLine s h)
                      (λ f. h)))))

octave_marks-OneLine : (o : ℤ) (s : Text) → OneLine s → OneLine (octave_marks o s).1
unfolding octave_marks
octave_marks-OneLine o [] h = h
octave_marks-OneLine o (c ∷ s) h =
    if_cases (λ (x : ℤ × Text). OneLine x.1) (is_mark c) _ _
      (λ t. octave_marks-OneLine (shifted c o) s (tail-OneLine c s h)) (λ f. h)

abbrev OneHead : Option Head → Type 0
OneHead none = Unit {0}
OneHead (some k) = OneLine k.rest

marked-OneHead : (e : Option ℤ) (s : Text) (o : Option (ℕ × ℤ)) → OneLine s → OneHead (marked e s o)
marked-OneHead e s none h = tt
marked-OneHead e s (some (l, o)) h = octave_marks-OneLine o s h

lettered-OneHead : (x : Option ℤ × Text) → OneLine x.1 → OneHead (lettered x)
lettered-OneHead (e, []) h = tt
lettered-OneHead (e, c ∷ s) h = marked-OneHead e s (note_letter c) (tail-OneLine c s h)

abbrev OneSpelled : Answer (Text × Rewriter) → Type 0
OneSpelled (refused e) = Unit {0}
OneSpelled (answer (out, r)) = OneLine out

spelled-OneSpelled : (r : Rewriter) (l : ℕ) (octave alt : ℤ) → OneSpelled (spelled r l octave alt)
spelled-OneSpelled r l octave alt =
    if_cases OneSpelled (ltb_ℤ alt (negsuc 1) || ltb_ℤ (pos 2) alt) _ _ (λ t. tt)
      (λ f.
        if_cases (λ (x : Text × Rewriter). OneLine x.0) (is_written r l alt) _ _
          (λ t.
            append-OneLine (accidental_text alt) (note_text l octave) (accidental_text-OneLine alt)
              (note_text-OneLine l octave))
          (λ f. note_text-OneLine l octave))

spell-OneSpelled : (r : Rewriter) (dst p : ℤ) → OneSpelled (spell r dst p)
unfolding spell
spell-OneSpelled r dst p =
    let l = pos_part (mod_floor p 7) in
    let octave = floor_div p 7 in spelled-OneSpelled r l octave (dst -ℤ pitch_at l octave (pos 0))

abbrev pub OneNote : Answer (Option (Text × Text × Rewriter)) → Type 0
OneNote (refused e) = Unit {0}
OneNote (answer none) = Unit {0}
OneNote (answer (some (out, rest, r))) = OneLine out × OneLine rest

with_rest-OneNote :
    (rest : Text) (a : Answer (Text × Rewriter))
    → OneLine rest
    → OneSpelled a
    → OneNote (with_rest rest a)
with_rest-OneNote rest (refused e) h k = tt
with_rest-OneNote rest (answer (out, r)) h k = (k, h)

noted_head-OneNote : (r : Rewriter) (o : Option Head) → OneHead o → OneNote (noted_head r o)
noted_head-OneNote r none h = tt
noted_head-OneNote r (some k) h =
    with_rest-OneNote k.rest
      (spell (note_src r k) (src_pitch r k +ℤ r.iv.semitones)
        (position k.letter k.octave +ℤ r.iv.steps))
      h (spell-OneSpelled (note_src r k) _ _)

pub note-OneNote : (r : Rewriter) (s : Text) → OneLine s → OneNote (note r s)
unfolding note read_head
note-OneNote r s h =
    noted_head-OneNote r (read_head s) (lettered-OneHead (accidental s) (accidental-OneLine s h))
