-- ===== src/Server/Edits.antt =====
-- internal/server/handlers.go: the edit of a song, and the fragments of a job and of a song's audio.
-- `broken` says that the query of the store fails.
pub mod Asked
pub mod Sources
use minmaxmusic3_web.Prelude.{
  ℕ, ◌⊎◌, inl, inr, Bool, false, not, Option, none, some, [], ◌++◌, if◌then◌else◌, Text, codes,
  trim_space, is_empty, fold_case, has_suffix,
}
use minmaxmusic3_web.Store.Rows.{Job, Song, Db, queued, succeeded, is_terminal, mode_edit}
use minmaxmusic3_web.Store.Jobs.{job}
use minmaxmusic3_web.Store.Songs.{song, song_for_job}
use minmaxmusic3_web.Config.{Config}
use minmaxmusic3_web.Server.RateLimit.{Limiter, allow}
use minmaxmusic3_web.Server.Site.{Site}
use minmaxmusic3_web.Server.Http.{Request, Packages, plain_error, not_found, client_ip}
use minmaxmusic3_web.Server.Access.{UserContext, caller, owns, readable_song}
use minmaxmusic3_web.Server.Generate.{JobReply, page, job_error, queue_job, limited}
use minmaxmusic3_web.Server.Scores.{
  Edited, edited, complaint, crashed, edit_score_of, edit_words_of, style_strength_of, seed_for,
}

-- The job of an edit; what the source does not give stays empty.
abbrev pub edit_job : (src : Song) → (score style lyrics : Text) → (scale seed : Option ℕ) → Job
edit_job src score style lyrics scale seed = record {
  id = [];
  state = queued;
  runpod_id = [];
  user_id = [];
  lyrics = lyrics;
  caption = style;
  engine = src.engine;
  mode = mode_edit;
  cot = [];
  abc = score;
  source_audio = [];
  source_song_id = src.id;
  instrumental = false;
  cfg_scale = scale;
  idea = [];
  title = src.title;
  duration = src.duration;
  seed = seed;
  error = [];
  retries = 0;
  created_at = 0;
  started_at = none;
  updated_at = 0;
}

-- The song of the path, if it is the caller's.
abbrev pub owned_song : Option UserContext → Option Song → Option Song
owned_song uc none = none
owned_song uc (some src) = if owns uc src then some src else none

unfoldable pub source_song : Db → Option UserContext → Request → Option Song
unfolding song caller owns
source_song d uc r = owned_song uc (song d r.path_id (caller uc))

-- A panic is answered by net/http with a closed connection, which is none.
abbrev pub Answered : Type 0
Answered = Option JobReply

abbrev replied : Db × JobReply → Db × Answered
replied (d, x) = (d, some x)

module _ (d : Db) (now : ℕ) (id : Text) (random : ℕ) (uc : Option UserContext) (r : Request) where
  abbrev pub edit_with_words :
      Song → (score : Text) → (scale : Option ℕ) → (Text × Text) ⊎ Text → Db × Answered
  edit_with_words src score scale (inl (style, lyrics)) = replied (
      queue_job d now id uc (codes "edit")
        (edit_job src score style lyrics scale (seed_for r src random)))
  edit_with_words src score scale (inr message) = (d, some (job_error 400 message))

  abbrev pub edit_with_scale : Song → (score : Text) → Option (Option ℕ) → Db × Answered
  edit_with_scale src score none =
      (d, some (job_error 400 (codes "Pick a style strength: off, balanced or strong.")))
  edit_with_scale src score (some scale) = edit_with_words src score scale (edit_words_of r src)

  abbrev pub edit_with_score : Song → Edited → Db × Answered
  edit_with_score src (edited score) = edit_with_scale src score (style_strength_of r (codes "off"))
  edit_with_score src (complaint message) = (d, some (job_error 400 message))
  edit_with_score src crashed = (d, none)

  abbrev pub edit_source : Option Song → Db × Answered
  edit_source none = (d, some (page not_found))
  edit_source (some src) =
      if is_empty (trim_space src.score_abc)
      then (
        d,
        some (
            job_error 400 (
              codes
                "This song was not generated from a score, so there is nothing to edit. Generate a new version instead.")),
      )
      else edit_with_score src (edit_score_of r src.score_abc)

  -- handleEditSong after the rate limit.
  unfoldable pub edit_song : (broken : Bool) → Db × Answered
  unfolding source_song edit_score_of style_strength_of edit_words_of seed_for queue_job trim_space
  edit_song broken =
      if broken
      then (d, some (page (plain_error 500 (codes "Could not load that song."))))
      else edit_source (source_song d uc r)

abbrev with_edit_db : Site → Db × Answered → Site × Answered
with_edit_db w (d, x) = (record w { db = d }, x)

abbrev edit_allowed :
    (now : ℕ)
    → (id : Text) → (random : ℕ) → (broken : Bool) → Option UserContext
    → Request
    → Site
    → Limiter × Bool
    → Site × Answered
edit_allowed now id random broken uc r w (l, b) =
    let w' : Site = record w { gen_limiter = l } in
    if b then with_edit_db w' (edit_song w.db now id random uc r broken) else (w', some limited)

unfoldable pub handle_edit_song :
    Packages
    → Config
    → Site
    → (now : ℕ) → (id : Text) → (random : ℕ) → (broken : Bool) → Option UserContext
    → Request
    → Site × Answered
unfolding edit_song allow client_ip
handle_edit_song pk c w now id random broken uc r =
    if not r.form_ok
    then (w, some (page (plain_error 400 (codes "bad form"))))
    else edit_allowed now id random broken uc r w (allow w.gen_limiter now (client_ip pk c r))

-- What is rendered of a job.
pub data JobFragment : Type 0 where
  no_job : JobFragment
  in_progress : Job → JobFragment
  finished : Job → Option Song → JobFragment

abbrev finished_song : Db → Job → Option Song
finished_song d j = elim j.state [ succeeded ↦ song_for_job d j.id | _ ↦ none ]

abbrev fragment_of : Db → Option Job → JobFragment
fragment_of d none = no_job
fragment_of d (some j) =
    if is_terminal j.state then finished j (finished_song d j) else in_progress j

unfoldable pub handle_job_fragment :
    (broken : Bool) → Db → Option UserContext → Request → JobFragment
unfolding job caller song_for_job
handle_job_fragment broken d uc r =
    if broken then no_job else fragment_of d (job d r.path_id (caller uc))

-- A file with its content type, or not found.
pub record AudioFile : Type 0 where
  pub path : Text
  pub content_type : Text
  pub file_name : Text

abbrev audio_file : Song → AudioFile
audio_file g =
    let wav = has_suffix (fold_case g.audio_path) (codes ".wav") in
    record {
      path = g.audio_path;
      content_type = if wav then codes "audio/wav" else codes "audio/mp4";
      file_name = g.id ++ (if wav then codes ".wav" else codes ".m4a");
    }

abbrev audio_of : Option Song → Option AudioFile
audio_of none = none
audio_of (some g) = some (audio_file g)

unfoldable pub handle_audio : (broken : Bool) → Db → Option UserContext → Request → Option AudioFile
unfolding readable_song has_suffix
handle_audio broken d uc r = if broken then none else audio_of (readable_song d uc r.path_id)
