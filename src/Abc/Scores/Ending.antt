-- ===== src/Abc/Scores/Ending.antt =====
-- internal/abc/transpose.go: the loop over a line ends, and which scores make it panic.
use minmaxmusic3_web.Prelude.{
  ℕ, zero, suc, ◌≤◌, ◌≡◌, refl, sym, ap, ◌∙◌, subst, ◌⊎◌, inl, inr, Bool, true, false, ◌&&◌, ◌||◌,
  Option, none, some, List, [], ◌∷◌, arith, ◌==◌, ==_iff, Bool-cases, if_cases, length, drop, All,
  Text, codes, trim_space, has_prefix, is_empty, ℤ, pos, negsuc, ltb_ℤ, eq_ℤ, contains, cut_byte,
}
use minmaxmusic3_web.Abc.Keys.{
  Refusal, Answer, Key, Interval, refused, answer, move_key, target_key, parse_key,
}
use minmaxmusic3_web.Abc.Notes.{
  Head, octave_marks, accidental, note_letter, shifted, is_mark, marked, lettered, Rewriter, note,
  reset_bar, with_rest, noted_head, read_head,
}
use minmaxmusic3_web.Abc.Scores.{
  Run, done, failed, true, set_key, turn, Turn, trim_space, quoted, go, inline_key, decorated,
  is_empty, field_of, stop, chorded, chord, fail, first_key, later_key, from_key, panicked, spent,
  bracketed, noted_turn, prepended, music_from, music, line, is_kept, rewrite_lines, lined,
  lines_of, scored, transpose, rewrite, new_rewriter, max_semitones,
}

-- A result or an error, and no panic.
abbrev pub Ends {ℓ} : {A : Type ℓ} → Run A → Type ℓ
Ends {A = A} t = ((x : A) × (t ≡ done x)) ⊎ ((e : Refusal) × (t ≡ failed e))

-- A line without an inline field that has no body.
abbrev pub NoBareField : Text → Type 0
NoBareField s = contains s (codes "[]:") ≡ false

-- `rest` is what is left of `s` after some bytes.
abbrev Left : (s rest : Text) → Type 0
Left s rest = (n : ℕ) × (rest ≡ drop n s)

drop-empty : (n : ℕ) → ◌≡◌ {A = Text} (drop n []) []
drop-empty zero = refl
drop-empty (suc n) = refl

Left-Left : (n m : ℕ) (s : Text) → Left s (drop n (drop m s))
Left-Left n zero s = (n, refl)
Left-Left n (suc m) [] = (zero, drop-empty n)
Left-Left n (suc m) (b ∷ s) = let (k, e) = Left-Left n m s in (suc k, e)

Left-trans : (s t u : Text) → Left s t → Left t u → Left s u
Left-trans s t u (m, e) (n, f) = let (k, g) = Left-Left n m s in (k, f ∙ ap (drop n) e ∙ g)

drop-NoBareField : (n : ℕ) (s : Text) → NoBareField s → NoBareField (drop n s)
unfolding contains
drop-NoBareField zero s h = h
drop-NoBareField (suc n) [] h = h
drop-NoBareField (suc n) (b ∷ s) h = drop-NoBareField n s (ground arith)

length-drop-le : (n : ℕ) (s : Text) → length (drop n s) ≤ length s
length-drop-le zero s = omega arith
length-drop-le (suc n) [] = omega arith
length-drop-le (suc n) (b ∷ s) = omega (arith, length-drop-le n s)

cut_byte-Left : (c : ℕ) (s : Text) → Left s (cut_byte c s).1
unfolding cut_byte
cut_byte-Left c [] = (zero, refl)
cut_byte-Left c (b ∷ s) =
    if_cases (λ (p : Text × Text × Bool). Left (b ∷ s) p.1) (b == c) _ _ (λ t. (suc zero, refl))
      (λ f. let (n, e) = cut_byte-Left c s in (suc n, e))

octave_marks-Left : (o : ℤ) (s : Text) → Left s (octave_marks o s).1
unfolding octave_marks
octave_marks-Left o [] = (zero, refl)
octave_marks-Left o (c ∷ s) =
    if_cases (λ (p : ℤ × Text). Left (c ∷ s) p.1) (is_mark c) _ _
      (λ t. let (n, e) = octave_marks-Left (shifted c o) s in (suc n, e)) (λ f. (zero, refl))

accidental-Left : (s : Text) → Left s (accidental s).1
unfolding accidental
accidental-Left s =
    if_cases P (has_prefix s (codes "^^")) _ _ (λ t. (2, refl))
      (λ f.
        if_cases P (has_prefix s (codes "__")) _ _ (λ t. (2, refl))
          (λ f.
            if_cases P (has_prefix s (codes "^")) _ _ (λ t. (1, refl))
              (λ f.
                if_cases P (has_prefix s (codes "_")) _ _ (λ t. (1, refl))
                  (λ f.
                    if_cases P (has_prefix s (codes "=")) _ _ (λ t. (1, refl)) (λ f. (0, refl))))))
  where
    P : Option ℤ × Text → Type 0
    P p = Left s p.1

-- What a note leaves is left of the text after its first byte.
abbrev LeavesLess : Text → Option Head → Type 0
LeavesLess s o = (h : Head) → o ≡ some h → Left s h.rest

some_inj : {a b : Head} → some a ≡ some b → a ≡ b
some_inj h = cc

marked-LeavesLess : (a : Option ℤ) (s : Text) (o : Option (ℕ × ℤ)) → LeavesLess s (marked a s o)
marked-LeavesLess a s none h e = cc
marked-LeavesLess a s (some (l, o)) h e =
    subst (λ (x : Head). Left s x.rest) (some_inj e) (octave_marks-Left o s)

Left-tail : (c : ℕ) (s t : Text) (b : ℕ) → Left (c ∷ s) (b ∷ t) → Left s t
Left-tail c s t b (zero, e) = (zero, ap (drop 1) e)
Left-tail c s t b (suc n, e) = let (k, f) = Left-Left 1 n s in (k, ap (drop 1) e ∙ f)

lettered-LeavesLess :
    (c : ℕ) (s : Text) (p : Option ℤ × Text) → Left (c ∷ s) p.1 → LeavesLess s (lettered p)
lettered-LeavesLess c s (a, []) left h e = cc
lettered-LeavesLess c s (a, b ∷ t) left h e =
    Left-trans s t h.rest (Left-tail c s t b left) (marked-LeavesLess a t (note_letter b) h e)

with_rest-rest :
    (rest out rest' : Text) (r' : Rewriter) (a : Answer (Text × Rewriter))
    → with_rest rest a ≡ answer (some (out, rest', r'))
    → rest' ≡ rest
with_rest-rest rest out rest' r' (refused e) h = cc
with_rest-rest rest out rest' r' (answer (o, r)) h = cc

note-Left :
    (r r' : Rewriter) (s out rest : Text) (o : Option Head)
    → LeavesLess s o
    → noted_head r o ≡ answer (some (out, rest, r'))
    → Left s rest
note-Left r r' s out rest none less h = cc
note-Left r r' s out rest (some x) less h =
    subst (Left s) (sym (with_rest-rest x.rest out rest r' _ h)) (less x refl)

-- A turn that does not panic, and what it leaves of the text after its byte.
abbrev Fine : Text → Turn → Type 0
Fine s t =
    ((out : Text) × (rest : Text) × (r : Rewriter) × (t ≡ go out rest r) × Left s rest)
    ⊎ (((out : Text) × (t ≡ stop out)) ⊎ ((e : Refusal) × (t ≡ fail e)))

goes : (s out rest : Text) (r : Rewriter) → Left s rest → Fine s (go out rest r)
goes s out rest r left = inl (out, rest, r, refl, left)

chorded-Fine :
    (r : Rewriter) (s after : Text) (a : Answer Text) → Left s after → Fine s (chorded r after a)
chorded-Fine r s after (refused e) left = inr (inr (e, refl))
chorded-Fine r s after (answer t) left = goes s _ after r left

quoted-Fine :
    (r : Rewriter) (s : Text) (p : Text × Text × Bool) → Left s p.1 → Fine s (quoted r s p)
quoted-Fine r s (before, after, found) left =
    if_cases (Fine s) found _ _ (λ t. chorded-Fine r s after (chord r.iv before) left)
      (λ f. inr (inl (_, refl)))

decorated-Fine :
    (r : Rewriter) (s : Text) (p : Text × Text × Bool) → Left s p.1 → Fine s (decorated r s p)
decorated-Fine r s (before, after, found) left =
    if_cases (Fine s) found _ _ (λ t. goes s _ after r left) (λ f. inr (inl (_, refl)))

set_key-Ends : (r : Rewriter) (value : Text) (n : ℤ) → Ends (set_key r value n)
unfolding set_key
set_key-Ends r value n = read (parse_key (cut_byte 32 (trim_space value)).0)
  where
    rest : Text
    rest = (cut_byte 32 (trim_space value)).1

    first_Ends : (k : Key) (a : Answer (Key × Interval)) → Ends (first_key r k rest a)
    first_Ends k (refused e) = inr (e, refl)
    first_Ends k (answer (to, iv)) = inl (_, refl)

    later_Ends : (k : Key) (a : Answer Key) → Ends (later_key r k rest a)
    later_Ends k (refused e) = inr (e, refl)
    later_Ends k (answer to) = inl (_, refl)

    read : (a : Answer Key) → Ends (from_key r n rest a)
    read (refused e) = inr (e, refl)
    read (answer from) =
        if_cases Ends r.keyed _ _ (λ t. later_Ends from (move_key from r.iv))
          (λ f. first_Ends from (target_key from n))

inline_key-Fine :
    (s after : Text) (t : Run (Text × Rewriter))
    → Ends t
    → Left s after
    → Fine s (inline_key after t)
inline_key-Fine s after (done (k, r)) h left = goes s _ after r left
inline_key-Fine s after (failed e) h left = inr (inr (e, refl))
inline_key-Fine s after panicked (inl (x, h)) left = cc
inline_key-Fine s after panicked (inr (e, h)) left = cc
inline_key-Fine s after spent (inl (x, h)) left = cc
inline_key-Fine s after spent (inr (e, h)) left = cc

field_of-Fine :
    (r : Rewriter) (s after field : Text)
    → is_empty field ≡ false
    → Left s after
    → Fine s (field_of r after field)
field_of-Fine r s after [] some_body left = cc
field_of-Fine r s after (c ∷ field) some_body left =
    if_cases (Fine s) (c == 75) _ _
      (λ t. inline_key-Fine s after _ (set_key-Ends r (drop 1 field) r.iv.semitones) left)
      (λ f. goes s _ after r left)

-- A colon comes second, so an empty body would be a bare field.
body-not-empty :
    (s : Text)
    → NoBareField (91 ∷ s)
    → has_prefix (drop 1 s) (codes ":") ≡ true
    → (cut_byte 93 s).2 ≡ true
    → is_empty (cut_byte 93 s).0 ≡ false
unfolding contains has_prefix cut_byte
body-not-empty [] h colon found = cc
body-not-empty (b ∷ s) h colon found = elim (Bool-cases (b == 93)) [
  | inl t ↦ ground arith
  | inr f ↦ rw f refl
]

bracketed-Fine :
    (r : Rewriter) (s : Text)
    → ((cut_byte 93 s).2 ≡ true → is_empty (cut_byte 93 s).0 ≡ false)
    → Fine s (bracketed r s (cut_byte 93 s))
bracketed-Fine r s body =
    if_cases (Fine s) (cut_byte 93 s).2 _ _
      (λ t. field_of-Fine r s (cut_byte 93 s).1 (cut_byte 93 s).0 (body t) (cut_byte-Left 93 s))
      (λ f. inr (inl (_, refl)))

coloned :
    (c : ℕ) (s : Text)
    → (c == 91 && has_prefix (drop 1 s) (codes ":")) ≡ true
    → has_prefix (drop 1 s) (codes ":") ≡ true
coloned c s t = ground arith

opened :
    (c : ℕ) (s : Text)
    → NoBareField (c ∷ s)
    → (c == 91 && has_prefix (drop 1 s) (codes ":")) ≡ true
    → NoBareField (91 ∷ s)
opened c s h t = subst (λ x. NoBareField (x ∷ s)) ((==_iff c 91).0 (ground arith)) h

turn-Fine : (r : Rewriter) (c : ℕ) (s : Text) → NoBareField (c ∷ s) → Fine s (turn r c s)
unfolding turn note
turn-Fine r c s h =
    if_cases (Fine s) (c == 34) _ _ (λ t. quoted-Fine r s (cut_byte 34 s) (cut_byte-Left 34 s))
      (λ f.
        if_cases (Fine s) (c == 91 && has_prefix (drop 1 s) (codes ":")) _ _
          (λ t. bracketed-Fine r s (body-not-empty s (opened c s h t) (coloned c s t)))
          (λ f.
            if_cases (Fine s) (c == 33) _ _
              (λ t. decorated-Fine r s (cut_byte 33 s) (cut_byte-Left 33 s))
              (λ f.
                if_cases (Fine s) (c == 124) _ _ (λ t. goes s _ s _ (0, refl))
                  (λ f. of_note (note r (c ∷ s)) refl))))
  where
    of_note :
        (a : Answer (Option (Text × Text × Rewriter)))
        → note r (c ∷ s) ≡ a
        → Fine s (noted_turn r c s a)
    of_note (refused e) same = inr (inr (e, refl))
    of_note (answer none) same = goes s _ s r (0, refl)
    of_note (answer (some (out, rest, r'))) same = goes s out rest r' (
        note-Left r r' s out rest (read_head (c ∷ s))
          (lettered-LeavesLess c s (accidental (c ∷ s)) (accidental-Left (c ∷ s))) same)

prepended-Ends : (out : Text) (t : Run (Text × Rewriter)) → Ends t → Ends (prepended out t)
prepended-Ends out t (inl ((x, r), e)) = rw e (inl (_, refl))
prepended-Ends out t (inr (x, e)) = rw e (inr (x, refl))

music_from-Ends :
    (fuel : ℕ) (r : Rewriter) (s : Text)
    → length s ≤ fuel
    → NoBareField s
    → Ends (music_from fuel r s)
unfolding music_from
music_from-Ends fuel r [] enough h = inl (_, refl)
music_from-Ends zero r (c ∷ s) enough h = absurd (omega arith)
music_from-Ends (suc fuel) r (c ∷ s) enough h = elim (turn-Fine r c s h) [
  | inl (out, rest, r', e, left) ↦
      rw (e, music_from)
        (prepended-Ends out (music_from fuel r' rest) (
          subst (λ x. Ends (music_from fuel r' x)) (sym left.1)
            (music_from-Ends fuel r' (drop left.0 s) (omega (arith, length-drop-le left.0 s))
              (drop-NoBareField (suc left.0) (c ∷ s) h))))
  | inr (inl (out, e)) ↦ rw (e, music_from) (inl (_, refl))
  | inr (inr (x, e)) ↦ rw (e, music_from) (inr (x, refl))
]

line-Ends : (r : Rewriter) (text : Text) (n : ℤ) → NoBareField text → Ends (line r text n)
unfolding line music
line-Ends r text n h =
    if_cases Ends (has_prefix (trim_space text) (codes "K:")) _ _
      (λ t. prepended-Ends (codes "K:") _ (set_key-Ends r (drop 2 (trim_space text)) n))
      (λ f.
        if_cases Ends (is_kept r (trim_space text)) _ _ (λ t. inl (_, refl))
          (λ g. music_from-Ends (length text) (reset_bar r) text (omega arith) h))

lined-Ends : (out : Text) (t : Run (List Text × Rewriter)) → Ends t → Ends (lined out t)
lined-Ends out t (inl ((x, r), e)) = rw e (inl (_, refl))
lined-Ends out t (inr (x, e)) = rw e (inr (x, refl))

rewrite_lines-Ends :
    (r : Rewriter) (n : ℤ) (ls : List Text) → All NoBareField ls → Ends (rewrite_lines r n ls)
unfolding rewrite_lines
rewrite_lines-Ends r n [] h = inl (_, refl)
rewrite_lines-Ends r n (l ∷ ls) (h, hs) = elim (line-Ends r l n h) [
  | inl ((out, r'), e) ↦ rw (e, rewrite_lines) (lined-Ends out _ (rewrite_lines-Ends r' n ls hs))
  | inr (x, e) ↦ rw (e, rewrite_lines) (inr (x, refl))
]

scored-Ends : (t : Run (List Text × Rewriter)) → Ends t → Ends (scored t)
scored-Ends t (inl ((ls, r), e)) =
    rw e (if_cases Ends r.keyed _ _ (λ t. inl (_, refl)) (λ f. inr (_, refl)))
scored-Ends t (inr (x, e)) = rw e (inr (x, refl))

-- The transposition of a score, by any number of semitones, comes to an end with a score or with a
-- refusal, and without a panic, where no line of the score holds an inline field without a body.
pub transpose-Ends :
    (score : Text) (n : ℤ)
    → All NoBareField (lines_of score)
    → ((out : Text) × (transpose score n ≡ done out))
      ⊎ ((e : Refusal) × (transpose score n ≡ failed e))
unfolding transpose rewrite
transpose-Ends score n h =
    if_cases Ends (ltb_ℤ n (negsuc 10) || ltb_ℤ (pos max_semitones) n) _ _ (λ t. inr (_, refl))
      (λ f.
        if_cases Ends (eq_ℤ n (pos 0)) _ _ (λ t. inl (_, refl))
          (λ g. scored-Ends _ (rewrite_lines-Ends new_rewriter n (lines_of score) h)))
