-- ===== src/Abc/Notes/Pitches.antt =====
-- internal/abc/transpose.go: a note of the source is rewritten as the same note, moved.
use minmaxmusic3_web.Prelude.{
  ℕ, ◌<◌, ◌≡◌, refl, sym, ap, ◌∙◌, subst, Bool, true, false, Option, none, some, [], ◌∷◌, ◌++◌,
  Text, ℤ, ◌+ℤ◌,
}
use minmaxmusic3_web.Abc.Keys.{Answer, answer, refused}
use minmaxmusic3_web.Abc.Notes.{
  Rewriter, Head, read_head, note_letter, pitch_at, or_else, note_src, src_pitch, src_alt, position,
  spell, note, noted_head, with_rest, accidental, lettered, marked,
}
use minmaxmusic3_web.Abc.Notes.Printing.{no_mark}
use minmaxmusic3_web.Abc.Notes.Spelling.{
  Bar, heard, heard_head, read_pitch, SrcAgrees, DstAgrees, spell-Sounds, heard-Src,
  note_letter-bound,
}

-- Everything that the theorem below says of the note that `s` begins with.
abbrev pub Moves :
    (loose : Bool) → Rewriter → (src dst : Bar) → (s out tail rest : Text) → Rewriter → Type 0
Moves loose r src dst s out tail rest r' =
    (pitch : ℤ) × (src' : Bar) × (dst' : Bar) × (read_pitch false r.src_sig src s
      ≡ some (pitch, src', rest))
    × (read_pitch loose r.dst_sig dst (out ++ tail) ≡ some (pitch +ℤ r.iv.semitones, dst', tail))
    × SrcAgrees r' src'
    × DstAgrees r' dst'

marked-bound :
    (e : Option ℤ) (t : Text) (c : ℕ) (m : Option (ℕ × ℤ)) (h : Head)
    → note_letter c ≡ m
    → marked e t m ≡ some h
    → h.letter < 7
marked-bound e t c none h letter same = cc
marked-bound e t c (some (l, o)) h letter same =
    subst (λ (x : ℕ). x < 7) (ap letter_or (same)) (note_letter-bound c l o letter)
  where
    letter_or : Option Head → ℕ
    letter_or none = 0
    letter_or (some x) = x.letter

lettered-bound : (x : Option ℤ × Text) (h : Head) → lettered x ≡ some h → h.letter < 7
lettered-bound (e, []) h same = cc
lettered-bound (e, c ∷ t) h same = marked-bound e t c (note_letter c) h refl same

read_head-bound : (s : Text) (h : Head) → read_head s ≡ some h → h.letter < 7
unfolding read_head
read_head-bound s h same = lettered-bound (accidental s) h same

src_pitch-read :
    (r : Rewriter) (bar : Bar) (s : Text) (h : Head)
    → SrcAgrees r bar
    → read_head s ≡ some h
    → read_pitch false r.src_sig bar s
      ≡ some (src_pitch r h, heard false h.explicit h.letter h.octave bar, h.rest)
unfolding read_pitch src_pitch src_alt
src_pitch-read r bar s h agrees same =
    ap (heard_head false r.src_sig bar) same
    ∙ ap
        (λ b. some (
          pitch_at h.letter h.octave (or_else h.explicit (or_else b (r.src_sig h.letter))),
          heard false h.explicit h.letter h.octave bar,
          h.rest,
        ))
        (sym (agrees h.letter h.octave (read_head-bound s h same)))

-- The note of one head, spelled as `w`.
head-Moves :
    (loose : Bool) (r : Rewriter) (src dst : Bar) (s tail : Text) (h : Head) (w : Text × Rewriter)
    → SrcAgrees r src
    → DstAgrees r dst
    → no_mark tail ≡ true
    → read_head s ≡ some h
    → spell
        (note_src r h)
        (src_pitch r h +ℤ r.iv.semitones)
        (position h.letter h.octave +ℤ r.iv.steps)
      ≡ answer w
    → Moves loose r src dst s w.0 tail h.rest w.1
unfolding note_src
head-Moves loose r src dst s tail h w src_agrees dst_agrees clean same spelling =
    let (dst', sounds, kept, bar) =
      spell-Sounds loose (note_src r h) dst _ _ tail w dst_agrees clean spelling in
    let src_kept = heard-Src r src h (read_head-bound s h same) src_agrees in
    (
      src_pitch r h,
      heard false h.explicit h.letter h.octave src,
      dst',
      src_pitch-read r src s h src_agrees same,
      sounds,
      (λ l o below. ap (λ b. b (position l o)) bar ∙ src_kept l o below),
      kept,
    )

answered : {x y : Text × Text × Rewriter} → answer (some x) ≡ answer (some y) → x ≡ y
answered h = cc

spelled-Moves :
    (loose : Bool) (r r' : Rewriter) (src dst : Bar) (s out rest tail : Text) (h : Head)
    (a : Answer (Text × Rewriter))
    → SrcAgrees r src
    → DstAgrees r dst
    → no_mark tail ≡ true
    → read_head s ≡ some h
    → spell
        (note_src r h)
        (src_pitch r h +ℤ r.iv.semitones)
        (position h.letter h.octave +ℤ r.iv.steps)
      ≡ a
    → with_rest h.rest a ≡ answer (some (out, rest, r'))
    → Moves loose r src dst s out tail rest r'
spelled-Moves loose r r' src dst s out rest tail h (refused x) sa da clean same spelling w = cc
spelled-Moves loose r r' src dst s out rest tail h (answer (out1, r1)) sa da clean same spelling w =
    subst (λ (x : Text × Text × Rewriter). Moves loose r src dst s x.0 tail x.1 x.2) (answered w)
      (head-Moves loose r src dst s tail h (out1, r1) sa da clean same spelling)

-- A note that is rewritten is a note of the source, and what is written for it, before any text
-- that does not go on with an octave mark, is read in the new key as the source's pitch moved by
-- the interval: by a reader who applies an accidental to its octave and by one who applies it to
-- every octave, as long as their bars agree with the rewriter's, which they then still do.
pub note_sounds_moved :
    (loose : Bool) (r r' : Rewriter) (src dst : Bar) (s out rest tail : Text)
    → SrcAgrees r src
    → DstAgrees r dst
    → no_mark tail ≡ true
    → note r s ≡ answer (some (out, rest, r'))
    → Moves loose r src dst s out tail rest r'
unfolding note
note_sounds_moved loose r r' src dst s out rest tail src_agrees dst_agrees clean e =
    of_head (read_head s) refl e
  where
    of_head :
        (o : Option Head)
        → read_head s ≡ o
        → noted_head r o ≡ answer (some (out, rest, r'))
        → Moves loose r src dst s out tail rest r'
    of_head none same w = cc
    of_head (some h) same w =
        spelled-Moves loose r r' src dst s out rest tail h
          (spell (note_src r h) (src_pitch r h +ℤ r.iv.semitones)
            (position h.letter h.octave +ℤ r.iv.steps))
          src_agrees dst_agrees clean same refl w
