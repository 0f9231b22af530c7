-- ===== src/Server/KeyPicker.antt =====
-- internal/server/handlers.go: the keys that the edit panel offers for a song.
use minmaxmusic3_web.Prelude.{
  suc, ◌-◌, List, [], ◌∷◌, ◌++◌, map, ◌==◌, if◌then◌else◌, length, take, Text, codes, decimal, ℤ,
  pos, negsuc, eq_ℤ, has_suffix,
}
use minmaxmusic3_web.Abc.Keys.{transpose_key, Answer, answer, refused}
use minmaxmusic3_web.Server.Scores.{ScoreMeta}

pub record KeyOption : Type 0 where
  pub shift : ℤ
  pub label : Text

-- strings.NewReplacer("#", "♯", "b", "♭")
unfoldable pub with_signs : Text → Text
with_signs [] = []
with_signs (c ∷ s) =
    let rest = with_signs s in
    if c == 35 then codes "♯" ++ rest else if c == 98 then codes "♭" ++ rest else c ∷ rest

-- "D#m" is "D♯ minor".
unfoldable pub key_name : Text → Text
unfolding with_signs has_suffix
key_name k =
    if has_suffix k (codes "m")
    then with_signs (take (length k - 1) k) ++ codes " minor"
    else with_signs k ++ codes " major"

unfoldable pub shift_words : ℤ → Text
unfolding decimal
shift_words (pos n) =
    if n == 0
    then codes "as it is"
    else if n == 1
    then codes "1 semitone up"
    else decimal n ++ codes " semitones up"
shift_words (negsuc n) =
    if n == 0 then codes "1 semitone down" else decimal (suc n) ++ codes " semitones down"

-- The name of a failed transposition is empty.
abbrev name_or_empty : Answer Text → Text
name_or_empty (answer name) = name
name_or_empty (refused e) = []

abbrev option_at : (key : Text) → ℤ → KeyOption
option_at key n = record {
  shift = n;
  label =
      key_name (if eq_ℤ n (pos 0) then key else name_or_empty (transpose_key key n))
      ++ codes " — "
      ++ shift_words n;
}

-- From maxKeyShift down to -maxKeyShift.
abbrev pub shifts : List ℤ
shifts =
    pos 6
    ∷ pos 5
    ∷ pos 4
    ∷ pos 3
    ∷ pos 2
    ∷ pos 1
    ∷ pos 0
    ∷ negsuc 0
    ∷ negsuc 1
    ∷ negsuc 2
    ∷ negsuc 3
    ∷ negsuc 4
    ∷ negsuc 5
    ∷ []

abbrev options_of : (key : Text) → Answer Text → List KeyOption
options_of key (refused e) = []
options_of key (answer name) = map (option_at key) shifts

unfoldable pub key_options : ScoreMeta → List KeyOption
unfolding transpose_key key_name shift_words
key_options m = options_of m.key (transpose_key m.key (pos 1))
