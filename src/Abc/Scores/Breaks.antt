-- ===== src/Abc/Scores/Breaks.antt =====
-- internal/abc/transpose.go: no line of a transposed score holds a line break.
use minmaxmusic3_web.Prelude.{
  ℕ, zero, suc, ◌≡◌, refl, ap, Bool, false, ◌&&◌, Option, none, some, List, [], ◌∷◌, ◌++◌, ◌==◌,
  if◌then◌else◌, if_cases, length, drop, All, Text, codes, trim_space, has_prefix, is_empty, ℤ,
  has_byte, cut_byte, split-join,
}
use minmaxmusic3_web.Abc.Keys.{
  Key, Interval, Answer, answer, refused, key_text, parse_key, target_key, move_key,
}
use minmaxmusic3_web.Abc.Notes.{Rewriter, note, reset_bar}
use minmaxmusic3_web.Abc.Chords.{chord}
use minmaxmusic3_web.Abc.Scores.{
  Run, done, failed, panicked, spent, first_key, later_key, from_key, set_key, Turn, go, stop, fail,
  panic, chorded, quoted, inline_key, field_of, bracketed, decorated, noted_turn, turn, prepended,
  music_from, music, line, is_kept, lined, rewrite_lines, lines_of, joined_lines,
}
use minmaxmusic3_web.Abc.OneLine.{
  OneLine, append-OneLine, cons-OneLine, tail-OneLine, head-OneLine, drop_one-OneLine,
  drop_two-OneLine, trim_space-OneLine, cut_byte-OneLine, key_text-OneLine,
}
use minmaxmusic3_web.Abc.Notes.Unbroken.{OneNote, note-OneNote}
use minmaxmusic3_web.Abc.Chords.Unbroken.{OneAnswer, chord-OneAnswer}

-- What a run has written has no line break.
abbrev OneRun : Run (Text × Rewriter) → Type 0
OneRun (done (t, r)) = OneLine t
OneRun _ = Unit {0}

keyed-OneLine :
    (to : Key) (rest : Text)
    → OneLine rest
    → OneLine (key_text to ++ (if is_empty rest then [] else 32 ∷ rest))
keyed-OneLine to rest h =
    append-OneLine (key_text to) (if is_empty rest then [] else 32 ∷ rest) (key_text-OneLine to) (
      if_cases OneLine (is_empty rest) [] (32 ∷ rest) (λ t. unfold has_byte in refl)
        (λ f. cons-OneLine 32 rest refl h))

first_key-OneRun :
    (r : Rewriter) (from : Key) (rest : Text) (a : Answer (Key × Interval))
    → OneLine rest
    → OneRun (first_key r from rest a)
first_key-OneRun r from rest (refused e) h = tt
first_key-OneRun r from rest (answer (to, iv)) h = keyed-OneLine to rest h

later_key-OneRun :
    (r : Rewriter) (from : Key) (rest : Text) (a : Answer Key)
    → OneLine rest
    → OneRun (later_key r from rest a)
later_key-OneRun r from rest (refused e) h = tt
later_key-OneRun r from rest (answer to) h = keyed-OneLine to rest h

from_key-OneRun :
    (r : Rewriter) (n : ℤ) (rest : Text) (a : Answer Key)
    → OneLine rest
    → OneRun (from_key r n rest a)
from_key-OneRun r n rest (refused e) h = tt
from_key-OneRun r n rest (answer from) h =
    if_cases OneRun r.keyed _ _ (λ t. later_key-OneRun r from rest (move_key from r.iv) h)
      (λ f. first_key-OneRun r from rest (target_key from n) h)

set_key-OneRun : (r : Rewriter) (v : Text) (n : ℤ) → OneLine v → OneRun (set_key r v n)
unfolding set_key
set_key-OneRun r v n h =
    let s = trim_space v in
    from_key-OneRun r n (cut_byte 32 s).1 (parse_key (cut_byte 32 s).0)
      (cut_byte-OneLine 32 s (trim_space-OneLine v h)).1

-- What a turn writes and leaves has no line break.
abbrev OneTurn : Turn → Type 0
OneTurn (go out rest r) = OneLine out × OneLine rest
OneTurn (stop out) = OneLine out
OneTurn (fail e) = Unit {0}
OneTurn panic = Unit {0}

enclosed :
    (c d : ℕ) (s : Text)
    → (c == 10) ≡ false
    → (d == 10) ≡ false
    → OneLine s
    → OneLine (c ∷ s ++ d ∷ [])
enclosed c d s hc hd h =
    cons-OneLine c (s ++ d ∷ []) hc
      (append-OneLine s (d ∷ []) h (cons-OneLine d [] hd (unfold has_byte in refl)))

chorded-OneTurn :
    (r : Rewriter) (after : Text) (a : Answer Text)
    → OneLine after
    → OneAnswer a
    → OneTurn (chorded r after a)
chorded-OneTurn r after (refused e) h k = tt
chorded-OneTurn r after (answer t) h k = (enclosed 34 34 t refl refl k, h)

quoted-OneTurn :
    (r : Rewriter) (s : Text) (x : Text × Text × Bool)
    → OneLine s
    → OneLine x.0 × OneLine x.1
    → OneTurn (quoted r s x)
quoted-OneTurn r s (before, after, found) h (k, m) =
    if_cases OneTurn found _ _
      (λ t. chorded-OneTurn r after (chord r.iv before) m (chord-OneAnswer r.iv before k))
      (λ f. cons-OneLine 34 s refl h)

inline_key-OneTurn :
    (after : Text) (t : Run (Text × Rewriter))
    → OneLine after
    → OneRun t
    → OneTurn (inline_key after t)
inline_key-OneTurn after (done (k, r)) h m = (
  append-OneLine (codes "[K:") (k ++ codes "]") (unfold has_byte in refl)
      (append-OneLine k (codes "]") m (unfold has_byte in refl)),
  h,
)
inline_key-OneTurn after (failed e) h m = tt
inline_key-OneTurn after panicked h m = tt
inline_key-OneTurn after spent h m = tt

field_of-OneTurn :
    (r : Rewriter) (after field : Text)
    → OneLine after
    → OneLine field
    → OneTurn (field_of r after field)
field_of-OneTurn r after [] h k = tt
field_of-OneTurn r after (c ∷ field) h k =
    if_cases OneTurn (c == 75) _ _
      (λ t. inline_key-OneTurn after (set_key r (drop 1 field) r.iv.semitones) h (
        set_key-OneRun r (drop 1 field) r.iv.semitones
          (drop_one-OneLine field (tail-OneLine c field k))))
      (λ f. (enclosed 91 93 (c ∷ field) refl refl k, h))

bracketed-OneTurn :
    (r : Rewriter) (s : Text) (x : Text × Text × Bool)
    → OneLine s
    → OneLine x.0 × OneLine x.1
    → OneTurn (bracketed r s x)
bracketed-OneTurn r s (field, after, found) h (k, m) =
    if_cases OneTurn found _ _ (λ t. field_of-OneTurn r after field m k)
      (λ f. cons-OneLine 91 s refl h)

decorated-OneTurn :
    (r : Rewriter) (s : Text) (x : Text × Text × Bool)
    → OneLine s
    → OneLine x.0 × OneLine x.1
    → OneTurn (decorated r s x)
decorated-OneTurn r s (before, after, found) h (k, m) =
    if_cases OneTurn found _ _ (λ t. (enclosed 33 33 before refl refl k, m))
      (λ f. cons-OneLine 33 s refl h)

single : (c : ℕ) (s : Text) → OneLine (c ∷ s) → OneLine (c ∷ []) × OneLine s
single c s h =
    (cons-OneLine c [] (head-OneLine c s h) (unfold has_byte in refl), tail-OneLine c s h)

noted_turn-OneTurn :
    (r : Rewriter) (c : ℕ) (s : Text) (a : Answer (Option (Text × Text × Rewriter)))
    → OneLine (c ∷ s)
    → OneNote a
    → OneTurn (noted_turn r c s a)
noted_turn-OneTurn r c s (refused e) h k = tt
noted_turn-OneTurn r c s (answer none) h k = single c s h
noted_turn-OneTurn r c s (answer (some (out, rest, r'))) h k = k

turn-OneTurn : (r : Rewriter) (c : ℕ) (s : Text) → OneLine (c ∷ s) → OneTurn (turn r c s)
unfolding turn
turn-OneTurn r c s h =
    let rest = tail-OneLine c s h in
    if_cases OneTurn (c == 34) _ _
      (λ t. quoted-OneTurn r s (cut_byte 34 s) rest (cut_byte-OneLine 34 s rest))
      (λ f.
        if_cases OneTurn (c == 91 && has_prefix (drop 1 s) (codes ":")) _ _
          (λ t. bracketed-OneTurn r s (cut_byte 93 s) rest (cut_byte-OneLine 93 s rest))
          (λ f.
            if_cases OneTurn (c == 33) _ _
              (λ t. decorated-OneTurn r s (cut_byte 33 s) rest (cut_byte-OneLine 33 s rest))
              (λ f.
                if_cases OneTurn (c == 124) _ _ (λ t. single c s h)
                  (λ f. noted_turn-OneTurn r c s (note r (c ∷ s)) h (note-OneNote r (c ∷ s) h)))))

prepended-OneRun :
    (out : Text) (t : Run (Text × Rewriter)) → OneLine out → OneRun t → OneRun (prepended out t)
prepended-OneRun out (done (s, r)) h k = append-OneLine out s h k
prepended-OneRun out (failed e) h k = tt
prepended-OneRun out panicked h k = tt
prepended-OneRun out spent h k = tt

music_from-OneRun : (fuel : ℕ) (r : Rewriter) (s : Text) → OneLine s → OneRun (music_from fuel r s)
unfolding music_from
music_from-OneRun zero r [] h = h
music_from-OneRun (suc fuel) r [] h = h
music_from-OneRun zero r (c ∷ s) h = tt
music_from-OneRun (suc fuel) r (c ∷ s) h =
    after (music_from-OneRun fuel) (turn r c s) (turn-OneTurn r c s h)
  where
    after :
        ((k : Rewriter) (u : Text) → OneLine u → OneRun (music_from fuel k u))
        → (t : Turn) → OneTurn t
        → OneRun (elim t as (λ x. Run (Text × Rewriter)) [
          | go out rest r' ↦ prepended out (music_from fuel r' rest)
          | stop out ↦ done (out, r)
          | fail e ↦ failed e
          | panic ↦ panicked
        ])
    after ih (go out rest r') (k, m) =
        prepended-OneRun out (music_from fuel r' rest) k (ih r' rest m)
    after ih (stop out) k = k
    after ih (fail e) k = tt
    after ih panic k = tt

-- A line that holds no break is written without one.
pub line-OneRun : (r : Rewriter) (l : Text) (n : ℤ) → OneLine l → OneRun (line r l n)
unfolding line music
line-OneRun r l n h =
    let s = trim_space l in
    if_cases OneRun (has_prefix s (codes "K:")) _ _
      (λ t.
        prepended-OneRun (codes "K:") (set_key r (drop 2 s) n) (unfold has_byte in refl)
          (set_key-OneRun r (drop 2 s) n (drop_two-OneLine s (trim_space-OneLine l h))))
      (λ f.
        if_cases OneRun (is_kept r s) _ _ (λ t. h)
          (λ f. music_from-OneRun (length l) (reset_bar r) l h))

abbrev pub OneLines : Run (List Text × Rewriter) → Type 0
OneLines (done (ls, r)) = All OneLine ls
OneLines _ = Unit {0}

lined-OneLines :
    (out : Text) (t : Run (List Text × Rewriter))
    → OneLine out
    → OneLines t
    → OneLines (lined out t)
lined-OneLines out (done (ls, r)) h k = (h, k)
lined-OneLines out (failed e) h k = tt
lined-OneLines out panicked h k = tt
lined-OneLines out spent h k = tt

-- So are all lines of a score.
pub rewrite_lines-OneLines :
    (r : Rewriter) (n : ℤ) (ls : List Text) → All OneLine ls → OneLines (rewrite_lines r n ls)
unfolding rewrite_lines
rewrite_lines-OneLines r n [] h = tt
rewrite_lines-OneLines r n (l ∷ ls) (h, hs) =
    after (λ k. rewrite_lines-OneLines k n ls hs) (line r l n) (line-OneRun r l n h)
  where
    after :
        ((k : Rewriter) → OneLines (rewrite_lines k n ls))
        → (t : Run (Text × Rewriter)) → OneRun t
        → OneLines (elim t as (λ x. Run (List Text × Rewriter)) [
          | done (out, k) ↦ lined out (rewrite_lines k n ls)
          | failed e ↦ failed e
          | panicked ↦ panicked
          | spent ↦ spent
        ])
    after ih (done (out, k)) m = lined-OneLines out (rewrite_lines k n ls) m (ih k)
    after ih (failed e) m = tt
    after ih panicked m = tt
    after ih spent m = tt

-- Such lines, at least one, come back when they are joined and split.
pub lines_of-joined_lines :
    (o : Text) (os : List Text) → All OneLine (o ∷ os) → lines_of (joined_lines (o ∷ os)) ≡ o ∷ os
lines_of-joined_lines o os (h, hs) =
    ap (λ (x : Text × List Text). x.0 ∷ x.1) (split-join 10 o os h hs)
