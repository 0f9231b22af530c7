-- ===== src/Llm/Tests.antt =====
-- internal/llm/llm.go: concrete fields.
use minmaxmusic3_web.Prelude.{◌≡◌, refl, some, [], ◌∷◌, Text, codes, fold_byte}
use minmaxmusic3_web.Llm.{clip, parse_mini_max_style, chat_url}
use minmaxmusic3_web.Llm.Clipping.{Clips, clip-Clips}

-- "aé" in UTF-8.
abbrev accented : Text
accented = 97 ∷ 195 ∷ 169 ∷ []

clipped_before : clip accented 2 ≡ codes "a"
unfolding clip
clipped_before = refl

clip_example : Clips accented 2 (clip accented 2)
clip_example = clip-Clips accented 2

url_once : chat_url (codes "https://h/v1/") ≡ codes "https://h/v1/chat/completions"
unfolding chat_url
url_once = refl

caption_read :
    parse_mini_max_style (codes "Sure:\n**Global Metadata**\na\n## vocal details: b\nArrangement:")
    ≡ some (codes "**Global Metadata**\na\n## vocal details: b\nArrangement:")
unfolding parse_mini_max_style fold_byte
caption_read = refl
