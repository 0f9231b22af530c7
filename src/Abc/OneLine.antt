-- ===== src/Abc/OneLine.antt =====
-- internal/abc/transpose.go: texts without a line break, and the names of letters and keys as such.
use minmaxmusic3_web.Prelude.{
  ℕ, zero, suc, ◌≡◌, refl, Bool, false, ◌&&◌, [], ◌∷◌, ◌++◌, arith, ◌==◌, if◌then◌else◌, if_cases,
  drop, Text, codes, is_space, trim_left, trim_right, trim_space, is_empty, ℤ, has_byte, cut_byte,
  Free,
}
use minmaxmusic3_web.Abc.Keys.{Key, letters, letter_at, alt_text, key_text}

-- Without a line break.
abbrev pub OneLine : Text → Type 0
OneLine = Free 10

pub append-OneLine : (s t : Text) → OneLine s → OneLine t → OneLine (s ++ t)
unfolding has_byte
append-OneLine [] t h k = k
append-OneLine (c ∷ s) t h k = ground (arith, append-OneLine s t (ground arith) k)

pub cons-OneLine : (c : ℕ) (s : Text) → (c == 10) ≡ false → OneLine s → OneLine (c ∷ s)
unfolding has_byte
cons-OneLine c s h k = ground arith

pub tail-OneLine : (c : ℕ) (s : Text) → OneLine (c ∷ s) → OneLine s
unfolding has_byte
tail-OneLine c s h = ground arith

pub head-OneLine : (c : ℕ) (s : Text) → OneLine (c ∷ s) → (c == 10) ≡ false
unfolding has_byte
head-OneLine c s h = ground arith

pub drop_one-OneLine : (s : Text) → OneLine s → OneLine (drop 1 s)
drop_one-OneLine [] h = h
drop_one-OneLine (c ∷ s) h = tail-OneLine c s h

pub drop_two-OneLine : (s : Text) → OneLine s → OneLine (drop 2 s)
drop_two-OneLine [] h = h
drop_two-OneLine (c ∷ []) h = tail-OneLine c [] h
drop_two-OneLine (c ∷ b ∷ s) h = tail-OneLine b s (tail-OneLine c (b ∷ s) h)

trim_left-OneLine : (p : ℕ → Bool) (s : Text) → OneLine s → OneLine (trim_left p s)
unfolding trim_left
trim_left-OneLine p [] h = h
trim_left-OneLine p (c ∷ s) h =
    if_cases OneLine (p c) _ _ (λ t. trim_left-OneLine p s (tail-OneLine c s h)) (λ f. h)

trim_right-OneLine : (p : ℕ → Bool) (s : Text) → OneLine s → OneLine (trim_right p s)
unfolding trim_right
trim_right-OneLine p [] h = h
trim_right-OneLine p (c ∷ s) h =
    if_cases OneLine (is_empty (trim_right p s) && p c) _ _ (λ t. unfold has_byte in refl)
      (λ f.
        cons-OneLine c (trim_right p s) (head-OneLine c s h)
          (trim_right-OneLine p s (tail-OneLine c s h)))

pub trim_space-OneLine : (s : Text) → OneLine s → OneLine (trim_space s)
unfolding trim_space
trim_space-OneLine s h =
    trim_right-OneLine is_space (trim_left is_space s) (trim_left-OneLine is_space s h)

pub cut_byte-OneLine :
    (d : ℕ) (s : Text) → OneLine s → OneLine (cut_byte d s).0 × OneLine (cut_byte d s).1
unfolding cut_byte
cut_byte-OneLine d [] h = (h, h)
cut_byte-OneLine d (c ∷ s) h =
    let (before, after) = cut_byte-OneLine d s (tail-OneLine c s h) in
    if_cases (λ (x : Text × Text × Bool). OneLine x.0 × OneLine x.1) (c == d) _ _
      (λ t. (unfold has_byte in refl, tail-OneLine c s h))
      (λ f. (cons-OneLine c (cut_byte d s).0 (head-OneLine c s h) before, after))

letter_at-OneLine : (s : Text) (l : ℕ) → OneLine s → OneLine (letter_at s l)
unfolding letter_at
letter_at-OneLine [] l h = h
letter_at-OneLine (c ∷ s) zero h = cons-OneLine c [] (head-OneLine c s h) (unfold has_byte in refl)
letter_at-OneLine (c ∷ s) (suc l) h = letter_at-OneLine s l (tail-OneLine c s h)

pub letter-OneLine : (l : ℕ) → OneLine (letter_at letters l)
letter-OneLine l = letter_at-OneLine letters l (unfold has_byte in refl)

alt_text-OneLine : (a : ℤ) → OneLine (alt_text a)
unfolding has_byte
alt_text-OneLine a = ground arith

pub key_text-OneLine : (k : Key) → OneLine (key_text k)
unfolding key_text
key_text-OneLine k =
    append-OneLine (letter_at letters k.letter ++ alt_text k.alt)
      (if k.minor then codes "m" else [])
      (append-OneLine (letter_at letters k.letter) (alt_text k.alt) (letter-OneLine k.letter)
        (alt_text-OneLine k.alt))
      (if_cases OneLine k.minor (codes "m") [] (λ t. mark) (λ f. none_written))
  where
    mark : OneLine (codes "m")
    mark = unfold has_byte in refl

    none_written : OneLine []
    none_written = unfold has_byte in refl
