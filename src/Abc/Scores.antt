-- ===== src/Abc/Scores.antt =====
-- internal/abc/transpose.go: the key fields, the lines and the score. An inline field without a body
-- makes Go index an empty string, which is `panicked`; `spent` is a line that outlasts its fuel.
pub mod Breaks
pub mod Lines
pub mod Ending
use minmaxmusic3_web.Prelude.{
  ℕ, zero, suc, Bool, true, false, ◌&&◌, ◌||◌, not, Option, none, some, List, [], ◌∷◌, ◌++◌, leb,
  ◌==◌, if◌then◌else◌, length, drop, Text, codes, trim_space, has_prefix, is_empty, ℤ, pos, negsuc,
  ltb_ℤ, eq_ℤ, split_byte, join_byte, cut_byte,
}
use minmaxmusic3_web.Abc.Keys.{
  Key, Interval, Refusal, out_of_bounds, no_key_field, Answer, answer, refused, parse_key, key_text,
  signature, target_key, move_key,
}
use minmaxmusic3_web.Abc.Notes.{Rewriter, reset_bar, note}
use minmaxmusic3_web.Abc.Chords.{chord}

pub data Run {ℓ} (A : Type ℓ) : Type ℓ where
  done : A → Run A
  failed : Refusal → Run A
  panicked spent : Run A

abbrev pub max_semitones : ℕ
max_semitones = 11

-- The key of the source becomes the key `to`.
abbrev pub keyed_to : Rewriter → Interval → (from to : Key) → (rest : Text) → Text × Rewriter
keyed_to r iv from to rest = (
  key_text to ++ (if is_empty rest then [] else 32 ∷ rest),
  reset_bar (record r { keyed = true; iv = iv; src_sig = signature from; dst_sig = signature to }),
)

abbrev pub first_key :
    Rewriter → Key → (rest : Text) → Answer (Key × Interval) → Run (Text × Rewriter)
first_key r from rest (refused e) = failed e
first_key r from rest (answer (to, iv)) = done (keyed_to r iv from to rest)

abbrev pub later_key : Rewriter → Key → (rest : Text) → Answer Key → Run (Text × Rewriter)
later_key r from rest (refused e) = failed e
later_key r from rest (answer to) = done (keyed_to r r.iv from to rest)

abbrev pub from_key :
    Rewriter → (semitones : ℤ) → (rest : Text) → Answer Key → Run (Text × Rewriter)
from_key r semitones rest (refused e) = failed e
from_key r semitones rest (answer from) =
    if r.keyed
    then later_key r from rest (move_key from r.iv)
    else first_key r from rest (target_key from semitones)

-- A comment after the name of the key stays as it is.
unfoldable pub set_key : Rewriter → (value : Text) → (semitones : ℤ) → Run (Text × Rewriter)
unfolding parse_key target_key move_key key_text signature reset_bar cut_byte trim_space
set_key r value semitones =
    let (name, rest, found) = cut_byte 32 (trim_space value) in
    from_key r semitones rest (parse_key name)

abbrev begins_letter : Text → Bool
begins_letter [] = false
begins_letter (c ∷ s) = (leb 65 c && leb c 90) || (leb 97 c && leb c 122)

unfoldable pub is_field : Text → Bool
unfolding has_prefix
is_field s = has_prefix (drop 1 s) (codes ":") && begins_letter s

-- One turn of the loop: what is written and what is left, or the end of the line.
pub data Turn : Type 0 where
  go : (out rest : Text) → Rewriter → Turn
  stop : (out : Text) → Turn
  fail : Refusal → Turn
  panic : Turn

abbrev pub chorded : Rewriter → (after : Text) → Answer Text → Turn
chorded r after (refused e) = fail e
chorded r after (answer t) = go (34 ∷ t ++ 34 ∷ []) after r

abbrev pub quoted : Rewriter → Text → Text × Text × Bool → Turn
quoted r s (before, after, found) =
    if found then chorded r after (chord r.iv before) else stop (34 ∷ s)

abbrev pub inline_key : (after : Text) → Run (Text × Rewriter) → Turn
inline_key after (done (k, r)) = go (codes "[K:" ++ k ++ codes "]") after r
inline_key after (failed e) = fail e
inline_key after _ = panic

abbrev pub field_of : Rewriter → (after : Text) → (field : Text) → Turn
field_of r after [] = panic
field_of r after (c ∷ field) =
    if c == 75
    then inline_key after (set_key r (drop 1 field) r.iv.semitones)
    else go (91 ∷ c ∷ field ++ 93 ∷ []) after r

abbrev pub bracketed : Rewriter → Text → Text × Text × Bool → Turn
bracketed r s (field, after, found) = if found then field_of r after field else stop (91 ∷ s)

abbrev pub decorated : Rewriter → Text → Text × Text × Bool → Turn
decorated r s (before, after, found) =
    if found then go (33 ∷ before ++ 33 ∷ []) after r else stop (33 ∷ s)

abbrev pub noted_turn : Rewriter → ℕ → Text → Answer (Option (Text × Text × Rewriter)) → Turn
noted_turn r c s (refused e) = fail e
noted_turn r c s (answer none) = go (c ∷ []) s r
noted_turn r c s (answer (some (out, rest, r'))) = go out rest r'

unfoldable pub turn : Rewriter → (c : ℕ) → (s : Text) → Turn
unfolding chord set_key note cut_byte reset_bar has_prefix
turn r c s =
    if c == 34
    then quoted r s (cut_byte 34 s)
    else if c == 91 && has_prefix (drop 1 s) (codes ":")
    then bracketed r s (cut_byte 93 s)
    else if c == 33
    then decorated r s (cut_byte 33 s)
    else if c == 124
    then go (c ∷ []) s (reset_bar r)
    else noted_turn r c s (note r (c ∷ s))

abbrev pub prepended : Text → Run (Text × Rewriter) → Run (Text × Rewriter)
prepended out (done (t, r)) = done (out ++ t, r)
prepended out (failed e) = failed e
prepended out panicked = panicked
prepended out spent = spent

-- The loop over a line. Each turn uses a byte, so the fuel of a line is its length.
unfoldable pub music_from : (fuel : ℕ) → Rewriter → Text → Run (Text × Rewriter)
unfolding turn
music_from fuel r [] = done ([], r)
music_from zero r (c ∷ s) = spent
music_from (suc fuel) r (c ∷ s) = elim (turn r c s) [
  | go out rest r' ↦ prepended out (music_from fuel r' rest)
  | stop out ↦ done (out, r)
  | fail e ↦ failed e
  | panic ↦ panicked
]

unfoldable pub music : Rewriter → Text → Run (Text × Rewriter)
unfolding music_from reset_bar
music r line = music_from (length line) (reset_bar r) line

abbrev pub key_line : Run (Text × Rewriter) → Run (Text × Rewriter)
key_line = prepended (codes "K:")

-- Whether a line that is no key field is written as it is.
abbrev pub is_kept : Rewriter → (trimmed : Text) → Bool
is_kept r trimmed =
    not r.keyed || is_empty trimmed || has_prefix trimmed (codes "%") || is_field trimmed

unfoldable pub line : Rewriter → Text → (semitones : ℤ) → Run (Text × Rewriter)
unfolding music set_key trim_space has_prefix is_field
line r text semitones =
    let trimmed = trim_space text in
    if has_prefix trimmed (codes "K:")
    then key_line (set_key r (drop 2 trimmed) semitones)
    else if is_kept r trimmed
    then done (text, r)
    else music r text

abbrev pub lined : Text → Run (List Text × Rewriter) → Run (List Text × Rewriter)
lined out (done (ls, r)) = done (out ∷ ls, r)
lined out (failed e) = failed e
lined out panicked = panicked
lined out spent = spent

unfoldable pub rewrite_lines : Rewriter → (semitones : ℤ) → List Text → Run (List Text × Rewriter)
unfolding line
rewrite_lines r semitones [] = done ([], r)
rewrite_lines r semitones (l ∷ ls) = elim (line r l semitones) [
  | done (out, r') ↦ lined out (rewrite_lines r' semitones ls)
  | failed e ↦ failed e
  | panicked ↦ panicked
  | spent ↦ spent
]

abbrev pub new_rewriter : Rewriter
new_rewriter = record {
  keyed = false;
  iv = record { semitones = pos 0; steps = pos 0 };
  src_sig = λ l. pos 0;
  dst_sig = λ l. pos 0;
  src_bar = λ p. none;
  dst_touched = λ l. false;
}

abbrev pub joined_lines : List Text → Text
joined_lines [] = []
joined_lines (l ∷ ls) = join_byte 10 (l, ls)

abbrev pub scored : Run (List Text × Rewriter) → Run Text
scored (done (ls, r)) = if r.keyed then done (joined_lines ls) else failed no_key_field
scored (failed e) = failed e
scored panicked = panicked
scored spent = spent

abbrev pub lines_of : Text → List Text
lines_of score = (split_byte 10 score).0 ∷ (split_byte 10 score).1

unfoldable pub rewrite : (score : Text) → (semitones : ℤ) → Run Text
unfolding rewrite_lines split_byte join_byte
rewrite score semitones = scored (rewrite_lines new_rewriter semitones (lines_of score))

unfoldable pub transpose : (score : Text) → (semitones : ℤ) → Run Text
unfolding rewrite
transpose score semitones =
    if ltb_ℤ semitones (negsuc 10) || ltb_ℤ (pos max_semitones) semitones
    then failed out_of_bounds
    else if eq_ℤ semitones (pos 0)
    then done score
    else rewrite score semitones
