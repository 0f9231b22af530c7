-- ===== src/Abc/Notes/Printing.antt =====
-- internal/abc/transpose.go: what the rewriter writes for a note is read back as that note.
use minmaxmusic3_web.Prelude.{
  ℕ, zero, suc, ◌+◌, ◌-◌, ◌≤◌, ◌<◌, ◌≡◌, refl, sym, ap, ◌∙◌, inl, inr, Bool, true, false, ◌&&◌, not,
  Option, none, some, [], ◌∷◌, ◌++◌, arith, ◌==◌, Bool-cases, Text, has_prefix, ℤ, pos, negsuc,
  pos_part, neg_part, ◌+ℤ◌, ◌-ℤ◌, ltb_ℤ, leb_ℤ, int_laws,
}
use minmaxmusic3_web.Abc.Keys.{letters, letter_at, index_byte}
use minmaxmusic3_web.Abc.Notes.{
  read_head, accidental, accidental_text, note_letter, octave_marks, note_text, repeated, is_mark,
  shifted, lettered, marked,
}

-- The text does not go on with an octave mark.
abbrev pub no_mark : Text → Bool
no_mark [] = true
no_mark (c ∷ s) = not (is_mark c)

marks-none : (o : ℤ) (s : Text) → no_mark s ≡ true → octave_marks o s ≡ (o, s)
unfolding octave_marks
marks-none o [] h = refl
marks-none o (c ∷ s) h = rw (not_true (is_mark c) h) refl
  where
    not_true : (b : Bool) → not b ≡ true → b ≡ false
    not_true false e = refl
    not_true true e = sym e

pub marks_left : (o : ℤ) (s : Text) → no_mark (octave_marks o s).1 ≡ true
unfolding octave_marks
marks_left o [] = refl
marks_left o (c ∷ s) = elim (Bool-cases (is_mark c)) [
  | inl t ↦ rw t (marks_left (shifted c o) s)
  | inr f ↦ rw f (ap not f)
]

plus_zero : (o : ℤ) → o ≡ o +ℤ pos 0
plus_zero o = grind int_laws

plus_suc : (o : ℤ) (n : ℕ) → o +ℤ pos 1 +ℤ pos n ≡ o +ℤ pos (suc n)
plus_suc o n = grind int_laws

minus_zero : (o : ℤ) → o ≡ o -ℤ pos 0
minus_zero o = grind int_laws

minus_suc : (o : ℤ) (n : ℕ) → o -ℤ pos 1 -ℤ pos n ≡ o -ℤ pos (suc n)
minus_suc o n = grind int_laws

marks-up :
    (n : ℕ) (o : ℤ) (s : Text)
    → no_mark s ≡ true
    → octave_marks o (repeated 39 n ++ s) ≡ (o +ℤ pos n, s)
unfolding octave_marks repeated
marks-up zero o s h = marks-none o s h ∙ ap (λ x. (x, s)) (plus_zero o)
marks-up (suc n) o s h = marks-up n (o +ℤ pos 1) s h ∙ ap (λ x. (x, s)) (plus_suc o n)

marks-down :
    (n : ℕ) (o : ℤ) (s : Text)
    → no_mark s ≡ true
    → octave_marks o (repeated 44 n ++ s) ≡ (o -ℤ pos n, s)
unfolding octave_marks repeated
marks-down zero o s h = marks-none o s h ∙ ap (λ x. (x, s)) (minus_zero o)
marks-down (suc n) o s h = marks-down n (o -ℤ pos 1) s h ∙ ap (λ x. (x, s)) (minus_suc o n)

up_back : (o : ℤ) → leb_ℤ (pos 5) o ≡ true → pos 5 +ℤ pos (pos_part o - 5) ≡ o
unfolding ◌+ℤ◌
up_back o h = ground arith

down_back : (o : ℤ) → leb_ℤ (pos 5) o ≡ false → pos 4 -ℤ pos (4 + neg_part o - pos_part o) ≡ o
unfolding ◌-ℤ◌
down_back o h = ground arith

-- A letter of the scale, as a byte.
LetterByte : ℕ → Type 0
LetterByte l =
    (c : ℕ) × (letter_at letters l ≡ c ∷ [])
    × (note_letter c ≡ some (l, pos 4))
    × (note_letter (c + 32) ≡ some (l, pos 5))
    × (65 ≤ c)
    × (c ≤ 71)

letters-LetterByte : (l : ℕ) → l < 7 → LetterByte l
unfolding letter_at note_letter index_byte LetterByte
letters-LetterByte zero h = (67, refl, refl, refl, omega arith, omega arith)
letters-LetterByte (suc zero) h = (68, refl, refl, refl, omega arith, omega arith)
letters-LetterByte (suc (suc zero)) h = (69, refl, refl, refl, omega arith, omega arith)
letters-LetterByte (suc (suc (suc zero))) h = (70, refl, refl, refl, omega arith, omega arith)
letters-LetterByte (suc (suc (suc (suc zero)))) h = (71, refl, refl, refl, omega arith, omega arith)
letters-LetterByte (suc (suc (suc (suc (suc zero))))) h =
    (65, refl, refl, refl, omega arith, omega arith)
letters-LetterByte (suc (suc (suc (suc (suc (suc zero)))))) h =
    (66, refl, refl, refl, omega arith, omega arith)
letters-LetterByte (suc (suc (suc (suc (suc (suc (suc l))))))) h = absurd (omega arith)

-- A byte that begins no accidental.
abbrev is_plain : ℕ → Bool
is_plain c = not (c == 94) && not (c == 95) && not (c == 61)

accidental-none : (c : ℕ) (s : Text) → is_plain c ≡ true → accidental (c ∷ s) ≡ (none, c ∷ s)
unfolding accidental has_prefix
accidental-none c s h = ground arith

accidental_back :
    (a : ℤ) (c : ℕ) (s : Text)
    → is_plain c ≡ true
    → ltb_ℤ a (negsuc 1) ≡ false
    → ltb_ℤ (pos 2) a ≡ false
    → accidental (accidental_text a ++ c ∷ s) ≡ (some a, c ∷ s)
unfolding accidental has_prefix accidental_text
accidental_back (pos zero) c s h low high = ground arith
accidental_back (pos (suc zero)) c s h low high = ground arith
accidental_back (pos (suc (suc zero))) c s h low high = ground arith
accidental_back (pos (suc (suc (suc n)))) c s h low high = absurd (ground arith)
accidental_back (negsuc zero) c s h low high = ground arith
accidental_back (negsuc (suc zero)) c s h low high = ground arith
accidental_back (negsuc (suc (suc n))) c s h low high = absurd (ground arith)

-- A head that is read at once.
abbrev pub Reads : Text → Option ℤ → ℕ → ℤ → Text → Type 0
Reads s e l o rest =
    read_head s ≡ some (record { explicit = e; letter = l; octave = o; rest = rest })

-- The letter and the marks that are written, as a reader takes them apart.
Shape : ℕ → ℤ → Text → Type 0
Shape l o s =
    (c : ℕ) × (octave : ℤ) × (marks : Text) × (note_text l o ++ s ≡ c ∷ marks)
    × (note_letter c ≡ some (l, octave))
    × (octave_marks octave marks ≡ (o, s))
    × (is_plain c ≡ true)

note_text-Shape : (l : ℕ) (o : ℤ) (s : Text) → l < 7 → no_mark s ≡ true → Shape l o s
unfolding note_text LetterByte Shape
note_text-Shape l o s letter clean =
    let (c, at, high, low, from, to) = letters-LetterByte l letter in
    elim (Bool-cases (leb_ℤ (pos 5) o)) [
      | inl t ↦ (
        c + 32,
        pos 5,
        repeated 39 (pos_part o - 5) ++ s,
        rw t (rw at refl),
        low,
        marks-up (pos_part o - 5) (pos 5) s clean ∙ ap (λ x. (x, s)) (up_back o t),
        ground arith,
      )
      | inr f ↦ (
        c,
        pos 4,
        repeated 44 (4 + neg_part o - pos_part o) ++ s,
        rw f (rw at refl),
        high,
        marks-down (4 + neg_part o - pos_part o) (pos 4) s clean ∙ ap (λ x. (x, s)) (down_back o f),
        ground arith,
      )
    ]

-- After the accidental, the letter and its marks.
note_text-Reads :
    (a : Option ℤ) (before : Text) (l : ℕ) (o : ℤ) (s : Text)
    → l < 7
    → no_mark s ≡ true
    → ((c : ℕ) (t : Text) → is_plain c ≡ true → accidental (before ++ c ∷ t) ≡ (a, c ∷ t))
    → Reads (before ++ (note_text l o ++ s)) a l o s
unfolding read_head Shape
note_text-Reads a before l o s letter clean begins =
    let (c, octave, marks, shape, letter_of, back, plain) = note_text-Shape l o s letter clean in
    ap (λ t. read_head (before ++ t)) shape
    ∙ ap lettered (begins c marks plain)
    ∙ ap (marked a marks) letter_of
    ∙ ap (λ (m : ℤ × Text). some (record { explicit = a; letter = l; octave = m.0; rest = m.1 }))
        back

pub plain-Reads :
    (l : ℕ) (o : ℤ) (s : Text) → l < 7 → no_mark s ≡ true → Reads (note_text l o ++ s) none l o s
plain-Reads l o s letter clean =
    note_text-Reads none [] l o s letter clean (λ c t h. accidental-none c t h)

pub sharpened-Reads :
    (a : ℤ) (l : ℕ) (o : ℤ) (s : Text)
    → l < 7
    → no_mark s ≡ true
    → ltb_ℤ a (negsuc 1) ≡ false
    → ltb_ℤ (pos 2) a ≡ false
    → Reads (accidental_text a ++ (note_text l o ++ s)) (some a) l o s
sharpened-Reads a l o s letter clean low high =
    note_text-Reads (some a) (accidental_text a) l o s letter clean
      (λ c t h. accidental_back a c t h low high)
