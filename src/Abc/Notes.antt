-- ===== src/Abc/Notes.antt =====
-- internal/abc/transpose.go: the rewriter's state and one note. What a note leaves unread is
-- returned as text where the code returns how many bytes it used.
pub mod Unbroken
pub mod Spelling
pub mod Pitches
pub mod Printing
use minmaxmusic3_web.Prelude.{
  ℕ, zero, suc, ◌+◌, ◌-◌, Bool, true, false, ◌&&◌, ◌||◌, not, Option, none, some, [], ◌∷◌, ◌++◌,
  map, leb, ◌==◌, if◌then◌else◌, drop, Text, codes, has_prefix, ℤ, pos, negsuc, pos_part, neg_part,
  ◌+ℤ◌, ◌-ℤ◌, ◌*ℤ◌, ltb_ℤ, leb_ℤ, eq_ℤ,
}
use minmaxmusic3_web.Abc.Pitch.{mod_floor, floor_div}
use minmaxmusic3_web.Abc.Keys.{
  Interval, Answer, answer, refused, unspelled_note, letters, index_byte, letter_at, natural_pc,
}

-- The arrays and the map of the rewriter are functions of the index and of the position.
pub record Rewriter : Type 0 where
  pub keyed : Bool
  pub iv : Interval
  pub src_sig : ℕ → ℤ
  pub dst_sig : ℕ → ℤ
  pub src_bar : ℤ → Option ℤ
  pub dst_touched : ℕ → Bool

unfoldable pub reset_bar : Rewriter → Rewriter
reset_bar r = record r { src_bar = λ p. none; dst_touched = λ l. false }

-- The loop over `accidentals`, and what follows the mark.
unfoldable pub accidental : Text → Option ℤ × Text
accidental s =
    if has_prefix s (codes "^^")
    then (some (pos 2), drop 2 s)
    else if has_prefix s (codes "__")
    then (some (negsuc 1), drop 2 s)
    else if has_prefix s (codes "^")
    then (some (pos 1), drop 1 s)
    else if has_prefix s (codes "_")
    then (some (negsuc 0), drop 1 s)
    else if has_prefix s (codes "=")
    then (some (pos 0), drop 1 s)
    else (none, s)

-- The text of an alteration in the same table.
unfoldable pub accidental_text : ℤ → Text
accidental_text a =
    if eq_ℤ a (pos 2)
    then codes "^^"
    else if eq_ℤ a (negsuc 1)
    then codes "__"
    else if eq_ℤ a (pos 1)
    then codes "^"
    else if eq_ℤ a (negsuc 0)
    then codes "_"
    else if eq_ℤ a (pos 0)
    then codes "="
    else []

-- A letter and the octave it stands for.
unfoldable pub note_letter : ℕ → Option (ℕ × ℤ)
unfolding index_byte
note_letter c =
    if leb 65 c && leb c 71
    then some (index_byte letters c, pos 4)
    else if leb 97 c && leb c 103
    then some (index_byte letters (c - 32), pos 5)
    else none

abbrev pub is_mark : ℕ → Bool
is_mark c = (c == 39) || (c == 44)

abbrev pub shifted : ℕ → ℤ → ℤ
shifted c octave = if c == 39 then octave +ℤ pos 1 else octave -ℤ pos 1

unfoldable pub octave_marks : ℤ → Text → ℤ × Text
unfolding ◌+ℤ◌ ◌-ℤ◌
octave_marks octave [] = (octave, [])
octave_marks octave (c ∷ s) =
    let rest = octave_marks (shifted c octave) s in if is_mark c then rest else (octave, c ∷ s)

-- What `note` reads before it looks at the bar.
pub record Head : Type 0 where
  pub explicit : Option ℤ
  pub letter : ℕ
  pub octave : ℤ
  pub rest : Text

abbrev pub marked : Option ℤ → Text → Option (ℕ × ℤ) → Option Head
marked explicit s none = none
marked explicit s (some (l, o)) = some (record {
  explicit = explicit;
  letter = l;
  octave = (octave_marks o s).0;
  rest = (octave_marks o s).1;
})

abbrev pub lettered : Option ℤ × Text → Option Head
lettered (explicit, []) = none
lettered (explicit, c ∷ s) = marked explicit s (note_letter c)

unfoldable pub read_head : Text → Option Head
unfolding accidental note_letter octave_marks
read_head s = lettered (accidental s)

-- letter + 7*octave
abbrev pub position : ℕ → ℤ → ℤ
position letter octave = pos letter +ℤ pos 7 *ℤ octave

abbrev pub or_else : Option ℤ → ℤ → ℤ
or_else none b = b
or_else (some a) b = a

-- naturalPC[letter] + 12*octave + alt
unfoldable pub pitch_at : ℕ → ℤ → ℤ → ℤ
unfolding natural_pc ◌+ℤ◌ ◌*ℤ◌
pitch_at letter octave alt = natural_pc letter +ℤ pos 12 *ℤ octave +ℤ alt

unfoldable pub src_alt : Rewriter → Head → ℤ
unfolding ◌+ℤ◌ ◌*ℤ◌
src_alt r h =
    or_else h.explicit (or_else (r.src_bar (position h.letter h.octave)) (r.src_sig h.letter))

abbrev pub noted : ℤ → Option ℤ → (ℤ → Option ℤ) → ℤ → Option ℤ
noted p none bar = bar
noted p (some a) bar = λ q. if eq_ℤ q p then some a else bar q

unfoldable pub note_src : Rewriter → Head → Rewriter
unfolding ◌+ℤ◌ ◌*ℤ◌
note_src r h = record r { src_bar = noted (position h.letter h.octave) h.explicit r.src_bar }

-- strings.Repeat of one byte.
unfoldable pub repeated : ℕ → (n : ℕ) → Text
repeated c zero = []
repeated c (suc n) = c ∷ repeated c n

abbrev pub lowered : Text → Text
lowered = map (λ c. c + 32)

unfoldable pub note_text : ℕ → ℤ → Text
unfolding letter_at repeated
note_text l octave =
    if leb_ℤ (pos 5) octave
    then lowered (letter_at letters l) ++ repeated 39 (pos_part octave - 5)
    else letter_at letters l ++ repeated 44 (4 + neg_part octave - pos_part octave)

abbrev pub touch : ℕ → (ℕ → Bool) → ℕ → Bool
touch l touched = λ i. if i == l then true else touched i

-- Whether the accidental is written out.
abbrev pub is_written : Rewriter → ℕ → ℤ → Bool
is_written r l alt = not (eq_ℤ alt (r.dst_sig l)) || r.dst_touched l

abbrev pub written : Rewriter → ℕ → ℤ → ℤ → Text × Rewriter
written r l octave alt =
    if is_written r l alt
    then (
      accidental_text alt ++ note_text l octave,
      record r { dst_touched = touch l r.dst_touched },
    )
    else (note_text l octave, r)

abbrev pub spelled : Rewriter → ℕ → ℤ → ℤ → Answer (Text × Rewriter)
spelled r l octave alt =
    if ltb_ℤ alt (negsuc 1) || ltb_ℤ (pos 2) alt
    then refused unspelled_note
    else answer (written r l octave alt)

-- The note moved to the pitch `dst` and the position `p`.
unfoldable pub spell : Rewriter → (dst p : ℤ) → Answer (Text × Rewriter)
unfolding mod_floor floor_div ◌-ℤ◌ pitch_at accidental_text note_text
spell r dst p =
    let l = pos_part (mod_floor p 7) in
    let octave = floor_div p 7 in spelled r l octave (dst -ℤ pitch_at l octave (pos 0))

unfoldable pub src_pitch : Rewriter → Head → ℤ
unfolding src_alt pitch_at
src_pitch r h = pitch_at h.letter h.octave (src_alt r h)

abbrev pub with_rest : Text → Answer (Text × Rewriter) → Answer (Option (Text × Text × Rewriter))
with_rest rest (refused e) = refused e
with_rest rest (answer (out, r)) = answer (some (out, rest, r))

abbrev pub noted_head : Rewriter → Option Head → Answer (Option (Text × Text × Rewriter))
noted_head r none = answer none
noted_head r (some h) = with_rest h.rest (
    spell (note_src r h) (src_pitch r h +ℤ r.iv.semitones)
      (position h.letter h.octave +ℤ r.iv.steps))

unfoldable pub note : Rewriter → Text → Answer (Option (Text × Text × Rewriter))
unfolding read_head spell note_src src_pitch ◌+ℤ◌ ◌*ℤ◌
note r s = noted_head r (read_head s)
