-- ===== src/Llm.antt =====
-- internal/llm/llm.go: what the assistant is asked and how a style is read from its reply. The
-- readers take the text that stripThinking leaves.
pub mod Clipping
mod Tests
use minmaxmusic3_web.Prelude.{
  ℕ, zero, suc, Bool, true, false, ◌&&◌, ◌||◌, not, Option, none, some, List, [], ◌∷◌, ◌++◌, leb,
  if◌then◌else◌, length, take, drop, Text, codes, text_eq, trim_left, trim_space, has_prefix,
  is_empty, fold_case, first, contains, has_byte, has_suffix, trim_right_byte, split_byte,
  join_byte,
}

abbrev pub max_style_len : ℕ
max_style_len = 3000

abbrev pub max_change_len : ℕ
max_change_len = 1000

-- utf8.RuneStart of the first byte.
abbrev pub starts_rune : Text → Bool
starts_rune [] = true
starts_rune (b ∷ s) = not (leb 128 b && leb b 191)

-- The loop that steps back to the start of a rune.
unfoldable pub rune_floor : Text → ℕ → ℕ
rune_floor s zero = 0
rune_floor s (suc n) =
    let rest = rune_floor s n in if starts_rune (drop (suc n) s) then suc n else rest

unfoldable pub clip : Text → ℕ → Text
unfolding rune_floor
clip s n = if leb (length s) n then s else take (rune_floor s n) s

abbrev style_part : Text → Text
style_part style =
    if is_empty style
    then codes "(none: write a complete style from the requested change)"
    else clip style max_style_len

abbrev lyrics_part : Text → Text
lyrics_part lyrics =
    if is_empty lyrics
    then []
    else codes "\n\nLyrics (context only; do not rewrite or quote them):\n" ++ lyrics

unfoldable pub style_message : (style change lyrics : Text) → Text
unfolding clip trim_space
style_message style change lyrics =
    codes "Existing style:\n"
    ++ style_part (trim_space style)
    ++ codes "\n\nRequested change:\n"
    ++ clip change max_change_len
    ++ lyrics_part (trim_space lyrics)

unfoldable pub chat_url : (base : Text) → Text
unfolding trim_right_byte has_suffix
chat_url base =
    let b = trim_right_byte 47 base in
    if has_suffix b (codes "/v1")
    then b ++ codes "/chat/completions"
    else b ++ codes "/v1/chat/completions"

abbrev is_fence : Text → Bool
is_fence line = has_prefix (trim_space line) (codes "```")

unfoldable pub unfenced : List Text → Text
unfolding trim_space has_prefix
unfenced [] = []
unfenced (l ∷ ls) = let rest = unfenced ls in if is_fence l then rest else l ++ 10 ∷ rest

abbrev pub lines_in : Text → List Text
lines_in s = (split_byte 10 s).0 ∷ (split_byte 10 s).1

unfoldable pub strip_fences : Text → Text
unfolding contains unfenced split_byte
strip_fences text = if not (contains text (codes "```")) then text else unfenced (lines_in text)

abbrev pub mini_max_headings : List Text
mini_max_headings = codes "Global Metadata" ∷ codes "Vocal Details" ∷ codes "Arrangement" ∷ []

abbrev after_name : Text → Bool
after_name rest = is_empty rest || has_prefix rest (codes ":")

unfoldable pub is_heading : (line name : Text) → Bool
unfolding trim_space trim_left has_byte has_prefix
is_heading line name =
    let text = trim_space (trim_left (λ b. has_byte b (codes "#*_ ")) (trim_space line)) in
    has_prefix (fold_case text) (fold_case name)
    && after_name (trim_left (λ b. has_byte b (codes "*_ ")) (drop (length name) text))

abbrev is_next : List Text → (line : Text) → Bool
is_next [] line = false
is_next (name ∷ names) line = is_heading line name

abbrev passed : List Text → List Text
passed [] = []
passed (name ∷ names) = names

abbrev or_first : Option (List Text) → List Text → Option (List Text)
or_first none ls = some ls
or_first (some first) ls = some first

-- The loop: the lines from the first heading on, and the headings that are still missing.
unfoldable pub read_headings :
    Option (List Text) → (missing : List Text) → List Text → Option (List Text) × List Text
unfolding is_heading
read_headings first missing [] = (first, missing)
read_headings first missing (l ∷ ls) =
    let hit = is_next missing l in
    read_headings (if hit then or_first first (l ∷ ls) else first)
      (if hit then passed missing else missing) ls

abbrev joined_from : Option (List Text) × List Text → Option Text
joined_from (some (l ∷ ls), []) = some (trim_space (join_byte 10 (l, ls)))
joined_from _ = none

-- none is ErrUnparseable.
unfoldable pub parse_mini_max_style : Text → Option Text
unfolding strip_fences read_headings split_byte join_byte trim_space
parse_mini_max_style content =
    joined_from (read_headings none mini_max_headings (lines_in (strip_fences content)))

unfoldable pub first_line : Text → Text
unfolding split_byte trim_space
first_line s = trim_space (split_byte 10 s).0

unfoldable pub normalise_cot : Text → Text
unfolding trim_space text_eq
normalise_cot v =
    let t = fold_case (trim_space v) in
    if text_eq t (codes "full") || text_eq t (codes "melody") || text_eq t (codes "off")
    then t
    else []
