-- ===== src/Worker/Payload.antt =====
-- internal/worker/worker.go, requestFor and the fields of the finished song; internal/runpod's two
-- request types.
use minmaxmusic3_web.Prelude.{
  ℕ, ◌≤◌, ◌≡◌, refl, ◌≢◌, inl, inr, Bool, true, false, ◌&&◌, not, Option, List, [], ◌∷◌, arith, ltb,
  ◌==◌, if◌then◌else◌, Bool-cases, length, take, length-take-le, Text, codes, text_eq,
  text_eq_complete, trim_space, is_empty, is_empty-false, text_eq-false,
}
use minmaxmusic3_web.Store.Rows.{Job, engine_yue2, mode_create, mode_cover}
use minmaxmusic3_web.Runpod.Output.{Output}

pub record Request : Type 0 where
  pub lyrics : Text
  pub instructions : Text
  pub audio_dur : ℕ
  pub seed : Option ℕ

-- An empty text, a none and a false are omitted from the JSON.
pub record Yue2Request : Type 0 where
  pub style : Text
  pub lyrics : Text
  pub mode : Text
  pub cot : Text
  pub seed : Option ℕ
  pub cfg_scale : Option ℕ
  pub abc : Text
  pub source_audio : Text
  pub instrumental : Bool

pub data Payload : Type 0 where
  minimax : Request → Payload
  yue2 : Yue2Request → Payload

abbrev pub cot_off : Text
cot_off = codes "off"

unfoldable pub yue2_request : Job → Yue2Request
yue2_request j = record {
  style = j.caption;
  lyrics = j.lyrics;
  mode = if text_eq j.mode mode_create then [] else j.mode;
  cot = if not (is_empty j.abc) && text_eq j.cot cot_off then [] else j.cot;
  seed = j.seed;
  cfg_scale = j.cfg_scale;
  abc = j.abc;
  source_audio = j.source_audio;
  instrumental = j.instrumental && not (text_eq j.mode mode_cover);
}

unfoldable pub request_for : Job → Payload
request_for j =
    if text_eq j.engine engine_yue2
    then yue2 (yue2_request j)
    else minimax (record {
      lyrics = j.lyrics;
      instructions = j.caption;
      audio_dur = j.duration;
      seed = j.seed;
    })

unfoldable pub engine_of : Job → Output → Text
engine_of j out = if is_empty out.engine then j.engine else out.engine

unfoldable pub mode_of : Job → Output → Text
mode_of j out = if is_empty out.mode then j.mode else out.mode

unfoldable pub cot_of : Job → Output → Text
cot_of j out = if is_empty out.cot then j.cot else out.cot

abbrev cons_line : ℕ → List Text → List Text
cons_line c [] = (c ∷ []) ∷ []
cons_line c (l ∷ ls) = (c ∷ l) ∷ ls

unfoldable pub split_lines : Text → List Text
split_lines [] = [] ∷ []
split_lines (c ∷ s) = let rest = split_lines s in if c == 10 then [] ∷ rest else cons_line c rest

abbrev cut_line : Text → Text
cut_line line = if ltb 60 (length line) then take 60 line else line

first_line : List Text → Text
first_line [] = codes "Untitled"
first_line (l ∷ ls) = let rest = first_line ls in if is_empty (cut_line l) then rest else cut_line l

unfoldable pub title_of : Job → Text
unfolding first_line
title_of j =
    let t = trim_space j.title in if is_empty t then first_line (split_lines j.caption) else t

depth_left_out : (j : Job) → is_empty j.abc ≡ false → text_eq (yue2_request j).cot cot_off ≡ false
unfolding yue2_request text_eq
depth_left_out j scored = ground arith

-- A YuE2 request carries the caption, the lyrics, the seed, the guidance scale, the source audio and
-- the score of its job as they are, and its mode but that a create is left out. The planning depth
-- is the job's, but that "off" is left out beside a score, since the engine refuses the two
-- together; and a cover is never sent as an instrumental, where any other job keeps its flag.
pub request_accepted :
    (j : Job)
    → let r = yue2_request j in
      ((r.style ≡ j.caption)
        × (r.lyrics ≡ j.lyrics)
        × (r.seed ≡ j.seed)
        × (r.cfg_scale ≡ j.cfg_scale)
        × (r.source_audio ≡ j.source_audio)
        × (r.abc ≡ j.abc))
      × ((j.mode ≡ codes "create" → r.mode ≡ []) × (j.mode ≢ codes "create" → r.mode ≡ j.mode))
      × (r.abc ≢ [] → r.cot ≢ codes "off")
      × (j.abc ≡ [] → r.cot ≡ j.cot)
      × (j.cot ≢ codes "off" → r.cot ≡ j.cot)
      × (j.mode ≡ codes "cover" → r.instrumental ≡ false)
      × (j.mode ≢ codes "cover" → r.instrumental ≡ j.instrumental)
unfolding yue2_request
request_accepted j = (
  (refl, refl, refl, refl, refl, refl),
  (
    λ create. rw (text_eq_complete j.mode mode_create create) refl,
    λ other. rw (text_eq-false j.mode mode_create other) refl,
  ),
  λ scored off. cc (
    depth_left_out j (is_empty-false j.abc scored),
    text_eq_complete (yue2_request j).cot cot_off off,
  ),
  λ unscored. rw unscored refl,
  λ planned. ground (arith, text_eq-false j.cot cot_off planned),
  λ cover. ground (arith, text_eq_complete j.mode mode_cover cover),
  λ other. ground (arith, text_eq-false j.mode mode_cover other),
)

length-take_le : (l : Text) → length (cut_line l) ≤ 60
length-take_le l = ground (arith, length-take-le 60 l)

first_line_bounds :
    (ls : List Text) → (is_empty (first_line ls) ≡ false) × (length (first_line ls) ≤ 60)
unfolding first_line
first_line_bounds [] = (refl, omega arith)
first_line_bounds (l ∷ ls) = elim (Bool-cases (is_empty (cut_line l))) [
  | inl e ↦ rw (e, first_line) (first_line_bounds ls)
  | inr n ↦ rw (n, first_line) (n, length-take_le l)
]

-- A song is always filed under a title that is not empty, and one derived from the caption has at
-- most 60 bytes.
pub title_of_bounds :
    (j : Job)
    → (is_empty (title_of j) ≡ false)
      × (is_empty (trim_space j.title) ≡ true → length (title_of j) ≤ 60)
unfolding title_of
title_of_bounds j = elim (Bool-cases (is_empty (trim_space j.title))) [
  | inl e ↦
      let bounds = first_line_bounds (split_lines j.caption) in
      rw (e, title_of) (bounds.0, λ h. bounds.1)
  | inr n ↦ rw (n, title_of) (n, λ h. absurd (ground arith))
]
