-- ===== src/Server/Scores.antt =====
-- internal/server/handlers.go: what a score says of its music, and the edit of a song from its score.
-- A random seed and the new job's id are arguments.
pub mod Tempo
use minmaxmusic3_web.Prelude.{
  ℕ, ◌+◌, ◌*◌, ◌^◌, ◌⊎◌, inl, inr, Bool, ◌&&◌, ◌||◌, not, Option, none, some, List, [], ◌∷◌, ◌++◌,
  ltb, if◌then◌else◌, drop, Text, codes, text_eq, trim_space, has_prefix, decimal, is_empty, ℤ, pos,
  negsuc, ltb_ℤ, or_text, atoi, split_byte, join_byte, cut_byte,
}
use minmaxmusic3_web.Store.Rows.{Song, mode_cover}
use minmaxmusic3_web.Abc.Scores.{Run, done, panicked, spent, transpose}
use minmaxmusic3_web.Server.Http.{Request}
use minmaxmusic3_web.Server.Generate.{pieces_of}

pub record ScoreMeta : Type 0 where
  pub key : Text
  pub meter : Text
  pub tempo : Text

-- An earlier line of the header wins.
abbrev pub first_header : (dst v : Text) → Text
first_header dst v = if is_empty dst then trim_space v else dst

-- One turn of the loop over the lines.
unfoldable pub read_header : ScoreMeta → (line : Text) → ScoreMeta
unfolding trim_space has_prefix cut_byte
read_header m text =
    let line = trim_space text in
    if has_prefix line (codes "K:")
    then record m { key = first_header m.key (drop 2 line) }
    else if has_prefix line (codes "M:")
    then record m { meter = first_header m.meter (drop 2 line) }
    else if has_prefix line (codes "Q:")
    then record m { tempo = first_header m.tempo (cut_byte 61 line).1 }
    else m

unfoldable pub read_headers : ScoreMeta → List Text → ScoreMeta
unfolding read_header
read_headers m [] = m
read_headers m (l ∷ ls) = read_headers (read_header m l) ls

abbrev pub no_meta : ScoreMeta
no_meta = record { key = []; meter = []; tempo = [] }

unfoldable pub score_meta_of : (abc : Text) → ScoreMeta
unfolding read_headers split_byte
score_meta_of abc = read_headers no_meta (pieces_of abc)

unfoldable pub any_meta : ScoreMeta → Bool
any_meta m = not (is_empty m.key) || not (is_empty m.meter) || not (is_empty m.tempo)

abbrev or_zero : Option ℤ → ℤ
or_zero none = pos 0
or_zero (some n) = n

unfoldable pub bpm_of : ScoreMeta → ℤ
unfolding atoi
bpm_of m = or_zero (atoi m.tempo)

abbrev pub max_key_shift : ℕ
max_key_shift = 6

abbrev pub min_tempo : ℕ
min_tempo = 20

abbrev pub max_tempo : ℕ
max_tempo = 400

abbrev pub tempo_line : ℕ → Text
tempo_line bpm = codes "Q:1/4=" ++ decimal bpm

abbrev pub then_line : Text → Option (List Text) → Option (List Text)
then_line l none = none
then_line l (some ls) = some (l ∷ ls)

-- The first tempo line is replaced.
unfoldable pub tempo_lines : (bpm : ℕ) → List Text → Option (List Text)
unfolding trim_space has_prefix decimal
tempo_lines bpm [] = none
tempo_lines bpm (l ∷ ls) =
    let rest = tempo_lines bpm ls in
    if has_prefix (trim_space l) (codes "Q:") then some (tempo_line bpm ∷ ls) else then_line l rest

abbrev pub joined_pieces : Option (List Text) → Option Text
joined_pieces none = none
joined_pieces (some []) = some []
joined_pieces (some (l ∷ ls)) = some (join_byte 10 (l, ls))

-- none stands for the score as it is, with false.
unfoldable pub rewrite_tempo : (abc : Text) → (bpm : ℕ) → Option Text
unfolding tempo_lines split_byte join_byte
rewrite_tempo abc bpm = joined_pieces (tempo_lines bpm (pieces_of abc))

-- The score, or a message, or the panic of the transposer.
pub data Edited : Type 0 where
  edited : (score : Text) → Edited
  complaint : (message : Text) → Edited
  crashed : Edited

abbrev pub key_complaint : Text
key_complaint = codes "This song's key can't be changed automatically. Try another edit instead."

abbrev pub with_tempo : Option Text → Edited
with_tempo none = complaint (codes "That song's score has no tempo to change. Try regenerating it.")
with_tempo (some score) = edited score

abbrev pub at_tempo : (abc : Text) → Option ℤ → Edited
at_tempo abc (some (pos n)) =
    if ltb n min_tempo || ltb max_tempo n
    then complaint (codes "Pick a tempo between 20 and 400 BPM.")
    else with_tempo (rewrite_tempo abc n)
at_tempo abc _ = complaint (codes "Pick a tempo between 20 and 400 BPM.")

unfoldable pub edit_tempo : Request → (abc : Text) → Edited
unfolding trim_space atoi rewrite_tempo
edit_tempo r abc =
    let v = trim_space (r.form (codes "tempo")) in
    if is_empty v then edited abc else at_tempo abc (atoi v)

abbrev pub moved_then : Request → Run Text → Edited
moved_then r (done abc) = edit_tempo r abc
moved_then r panicked = crashed
moved_then r spent = crashed
moved_then r _ = complaint key_complaint

abbrev pub by_shift : Request → (abc : Text) → Option ℤ → Edited
by_shift r abc none = complaint (codes "Pick a key from the list.")
by_shift r abc (some n) =
    if ltb_ℤ n (negsuc 5) || ltb_ℤ (pos max_key_shift) n
    then complaint (codes "Pick a key from the list.")
    else moved_then r (transpose abc n)

unfoldable pub edit_score_of : Request → (abc : Text) → Edited
unfolding trim_space atoi text_eq transpose edit_tempo
edit_score_of r abc =
    let v = trim_space (r.form (codes "transpose")) in
    if not (is_empty v) && not (text_eq v (codes "0"))
    then by_shift r abc (atoi v)
    else edit_tempo r abc

-- The guidance presets: nothing, 3.0 and 4.5. none is an error.
unfoldable pub style_strength_of : Request → (fallback : Text) → Option (Option ℕ)
unfolding trim_space text_eq
style_strength_of r fallback =
    let v = or_text (trim_space (r.form (codes "style_strength"))) fallback in
    if text_eq v (codes "off")
    then some none
    else if text_eq v (codes "balanced")
    then some (some (1024 * 2 ^ 52 + 2 ^ 51))
    else if text_eq v (codes "strong")
    then some (some (1025 * 2 ^ 52 + 2 ^ 49))
    else none

unfoldable pub seed_for : Request → Song → (random : ℕ) → Option ℕ
seed_for r src random = if is_empty (r.form (codes "new_seed")) then src.seed else some random

-- Style and lyrics, or a message.
unfoldable pub edit_words_of : Request → Song → (Text × Text) ⊎ Text
unfolding trim_space text_eq
edit_words_of r src =
    let style = or_text (trim_space (r.form (codes "instructions"))) src.caption in
    let lyrics = or_text (trim_space (r.form (codes "input"))) src.lyrics in
    if is_empty style
    then inr (codes "Add a style describing the arrangement you want.")
    else if is_empty lyrics
    then inr (
        if text_eq src.mode mode_cover
        then codes
            "This cover's words came from the recording and weren't kept. Type the lyrics in to edit it."
        else codes "An edit needs lyrics — untick Instrumental, or write some.")
    else inl (style, lyrics)
