-- ===== src/Server/Generate.antt =====
-- internal/server/handlers.go: the generate form. A float64 is its bit pattern, and `parse_float` is
-- strconv.ParseFloat without its error; `engines` are the keys of the map of clients.
pub mod Checks
use minmaxmusic3_web.Prelude.{
  ℕ, suc, ◌+◌, ◌-◌, ◌*◌, ◌/◌, ◌%◌, ◌^◌, Bool, ◌&&◌, ◌||◌, not, Option, none, some, List, [], ◌∷◌,
  ◌++◌, ltb, ◌==◌, if◌then◌else◌, length, take, Text, codes, text_eq, trim_space, has_prefix,
  is_empty, fold_case, any_row, ℤ, pos, negsuc, sub_ℕ, ltb_ℤ, atoi, split_byte, cut_byte,
  rune_count,
}
use minmaxmusic3_web.Store.Rows.{Job, Db, queued, engine_minimax, engine_yue2, Result, ok, err}
use minmaxmusic3_web.Store.Jobs.{create_job}
use minmaxmusic3_web.Config.{Config, yue2_enabled}
use minmaxmusic3_web.Server.Http.{Request, Reply, plain_error}
use minmaxmusic3_web.Server.Access.{UserContext, caller}

pub record JobForm : Type 0 where
  pub lyrics : Text
  pub caption : Text
  pub title : Text
  pub idea : Text
  pub duration : ℕ
  pub seed : Option ℕ
  pub engine : Text
  pub cot : Text
  pub instrumental : Bool

abbrev pub max_title : ℕ
max_title = 120

abbrev pub max_idea : ℕ
max_idea = 4000

abbrev pub max_caption : ℕ
max_caption = 20000

-- Neither a NaN nor an infinity: the exponent is not all ones.
unfoldable pub is_finite : ℕ → Bool
is_finite b = not (b / 2 ^ 52 % 2 ^ 11 == 2047)

-- A float64 that is no NaN is ordered by its bit pattern: sign and magnitude.
abbrev magnitude : ℕ → ℤ
magnitude b = if ltb b (2 ^ 63) then pos b else sub_ℕ 0 (b - 2 ^ 63)

-- The exponent is all ones and the rest is not zero.
abbrev is_nan : ℕ → Bool
is_nan b = (b / 2 ^ 52 % 2 ^ 11 == 2047) && not (b % 2 ^ 52 == 0)

-- Go's < of two float64s, which is false of a NaN.
unfoldable pub float_less : (a b : ℕ) → Bool
float_less a b = not (is_nan a) && not (is_nan b) && ltb_ℤ (magnitude a) (magnitude b)

-- The bit patterns of 10, 30 and 300.
abbrev pub float_10 : ℕ
float_10 = 1026 * 2 ^ 52 + 2 ^ 50

abbrev pub float_30 : ℕ
float_30 = 1027 * 2 ^ 52 + 7 * 2 ^ 49

abbrev pub float_300 : ℕ
float_300 = 1031 * 2 ^ 52 + 11 * 2 ^ 46

-- The bit pattern of an int64.
abbrev bits_of : ℤ → ℕ
bits_of (pos n) = n
bits_of (negsuc n) = 2 ^ 64 - suc n

abbrev seed_bits : Option ℤ → Option ℕ
seed_bits none = none
seed_bits (some n) = some (bits_of n)

unfoldable pub seed_of : Request → Option ℕ
unfolding atoi trim_space
seed_of r = seed_bits (atoi (trim_space (r.form (codes "seed"))))

abbrev finite_or : (def : ℕ) → Option ℕ → ℕ
finite_or def none = def
finite_or def (some d) = if is_finite d then d else def

unfoldable pub float_or : (parse_float : Text → Option ℕ) → Text → (def : ℕ) → ℕ
unfolding is_finite
float_or parse_float v def = finite_or def (parse_float v)

unfoldable pub engine_named : (engines : List Text) → Request → Text
unfolding trim_space text_eq
engine_named engines r =
    let engine = trim_space (r.form (codes "engine")) in
    if any_row (text_eq engine) engines then engine else engine_minimax

unfoldable pub job_form_of :
    (parse_float : Text → Option ℕ) → (engines : List Text) → Request → JobForm
unfolding trim_space float_or seed_of engine_named text_eq
job_form_of parse_float engines r =
    let engine = engine_named engines r in
    let yue2 = text_eq engine engine_yue2 in
    record {
      lyrics = trim_space (r.form (codes "input"));
      caption = trim_space (r.form (codes "instructions"));
      title = trim_space (r.form (codes "title"));
      idea = take max_idea (trim_space (r.form (codes "idea")));
      duration = float_or parse_float (r.form (codes "audio_duration")) float_30;
      seed = seed_of r;
      engine = engine;
      cot = if yue2 then trim_space (r.form (codes "cot")) else [];
      instrumental = yue2 && not (is_empty (r.form (codes "instrumental")));
    }

abbrev pub tag_words : List Text
tag_words =
    codes "[intro"
    ∷ codes "[verse"
    ∷ codes "[pre-chorus"
    ∷ codes "[chorus"
    ∷ codes "[post-chorus"
    ∷ codes "[bridge"
    ∷ codes "[interlude"
    ∷ codes "[hook"
    ∷ codes "[build up"
    ∷ codes "[break"
    ∷ codes "[transition"
    ∷ codes "[instrumental"
    ∷ codes "[inst"
    ∷ codes "[solo"
    ∷ codes "[outro"
    ∷ []

-- A section tag with text behind it.
unfoldable pub is_bad_line : Text → Bool
unfolding trim_space has_prefix cut_byte
is_bad_line line =
    let trim = trim_space (fold_case line) in
    let (before, after, closed) = cut_byte 93 trim in
    any_row (has_prefix trim) tag_words && closed && not (is_empty (trim_space after))

abbrev pub pieces_of : Text → List Text
pieces_of s = (split_byte 10 s).0 ∷ (split_byte 10 s).1

unfoldable pub bad_tag_line : Text → Bool
unfolding is_bad_line split_byte
bad_tag_line lyrics = any_row is_bad_line (pieces_of lyrics)

-- The message; empty is none.
unfoldable pub lyrics_problem : JobForm → Text
unfolding bad_tag_line text_eq
lyrics_problem f =
    if is_empty f.lyrics && not (text_eq f.engine engine_yue2 && f.instrumental)
    then codes "Add some lyrics first — or ask the assistant to draft them."
    else if f.instrumental && not (is_empty f.lyrics)
    then codes
        "Instrumental is ticked, so the lyrics need to be empty — untick it to use your words."
    else if bad_tag_line f.lyrics
    then codes
        "Every section tag like [Verse] needs its own line — the model drops text sharing a tag's line."
    else []

unfoldable pub validate : JobForm → Text
unfolding lyrics_problem text_eq float_less rune_count
validate f =
    if not (is_empty (lyrics_problem f))
    then lyrics_problem f
    else if is_empty f.caption
    then codes "Add a style caption describing the music."
    else if not (text_eq f.engine engine_yue2)
        && (float_less f.duration float_10 || float_less float_300 f.duration)
    then codes "Pick a length between 10 and 300 seconds."
    else if ltb max_title (rune_count f.title)
    then codes "That title is too long — keep it under 120 characters."
    else if ltb max_caption (length f.caption)
    then codes "That caption is too long for the model — trim it."
    else []

-- `next_cover` goes on with queueCover (Server.CoverJobs).
pub data JobReply : Type 0 where
  page : Reply → JobReply
  job_error : (code : ℕ) → (message : Text) → JobReply
  job_card : Job → JobReply
  next_cover : JobReply

-- The job of a form; the store fills in what it leaves empty.
abbrev pub job_of_form : JobForm → Job
job_of_form f = record {
  id = [];
  state = queued;
  runpod_id = [];
  user_id = [];
  lyrics = f.lyrics;
  caption = f.caption;
  engine = f.engine;
  mode = [];
  cot = f.cot;
  abc = [];
  source_audio = [];
  source_song_id = [];
  instrumental = f.instrumental;
  cfg_scale = none;
  idea = f.idea;
  title = f.title;
  duration = f.duration;
  seed = f.seed;
  error = [];
  retries = 0;
  created_at = 0;
  started_at = none;
  updated_at = 0;
}

abbrev filed : (what : Text) → Job → Db × Result (Unit {0}) → Db × JobReply
filed what j (d, ok u) = (d, job_card j)
filed what j (d, err e) =
    (d, job_error 500 (codes "Could not queue the " ++ what ++ codes " — try again."))

-- `id` is worker.NewJobID.
unfoldable pub queue_job :
    Db → (now : ℕ) → (id : Text) → Option UserContext → (what : Text) → Job → Db × JobReply
unfolding create_job caller
queue_job d now id uc what j =
    let j' : Job = record j {
      id = id;
      state = queued;
      user_id = (caller uc).user_id;
      created_at = now;
    } in
    filed what j' (create_job d j')

abbrev pub queue_form :
    Db → (now : ℕ) → (id : Text) → Option UserContext → JobForm → (message : Text) → Db × JobReply
queue_form d now id uc f message =
    if is_empty message
    then queue_job d now id uc (codes "job") (job_of_form f)
    else (d, job_error 400 message)

-- handleCreateJob after the rate limit, but for the cover.
unfoldable pub create_job_of :
    Config
    → (parse_float : Text → Option ℕ) → (engines : List Text) → Db
    → (now : ℕ) → (id : Text) → Option UserContext
    → Request
    → Db × JobReply
unfolding validate job_form_of queue_job text_eq yue2_enabled
create_job_of c parse_float engines d now id uc r =
    let mode = r.form (codes "mode") in
    let f = job_form_of parse_float engines r in
    if text_eq mode (codes "cover")
    then (
      d,
      if not (text_eq (r.form (codes "engine")) engine_yue2) || not (yue2_enabled c)
          then job_error 400 (codes "Select an available YuE2 model to make a cover.")
          else next_cover,
    )
    else if not (is_empty mode || text_eq mode (codes "create"))
    then (d, job_error 400 (codes "Choose New song or Cover a recording."))
    else queue_form d now id uc f (validate f)

-- genAllowed
abbrev pub limited : JobReply
limited = page (plain_error 429 (codes "Rate limit reached — try again in a little while."))
