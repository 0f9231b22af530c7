-- ===== src/Server/CoverJobs.antt =====
-- internal/server/cover.go: the source of a cover and its job. `uploads` are the files of the form,
-- none where it is no multipart form.
pub mod Recording
pub mod Queued
use minmaxmusic3_web.Prelude.{
  ℕ, Bool, true, false, ◌||◌, not, Option, none, some, List, [], ◌∷◌, ltb, if◌then◌else◌, length,
  Text, codes, text_eq, trim_space, is_empty, pos, ltb_ℤ, leb_ℤ, rune_count,
}
use minmaxmusic3_web.Store.Rows.{Job, Song, Db, queued, engine_yue2, mode_cover}
use minmaxmusic3_web.Store.Users.{cover_link_audio}
use minmaxmusic3_web.Config.{Config, yue2_enabled}
use minmaxmusic3_web.Server.Http.{Request, Packages, not_found, plain_error}
use minmaxmusic3_web.Server.Access.{UserContext, caller}
use minmaxmusic3_web.Server.Generate.{
  JobReply, page, job_error, queue_job, seed_of, bad_tag_line, max_title, max_caption,
}
use minmaxmusic3_web.Server.Scores.{style_strength_of, seed_for}
use minmaxmusic3_web.Server.Edits.{source_song}
use minmaxmusic3_web.Server.Covers.{
  Files, Upload, Tried, got, message, max_upload_bytes, mint_cover_url, stage_upload,
  is_fetchable_url,
}

abbrev pub cover_job :
    (lyrics style title : Text) → (source : Text × Text) → (scale seed : Option ℕ) → Job
cover_job lyrics style title (url, song_id) scale seed = record {
  id = [];
  state = queued;
  runpod_id = [];
  user_id = [];
  lyrics = lyrics;
  caption = style;
  engine = engine_yue2;
  mode = mode_cover;
  cot = [];
  abc = [];
  source_audio = url;
  source_song_id = song_id;
  instrumental = false;
  cfg_scale = scale;
  idea = [];
  title = title;
  duration = 0;
  seed = seed;
  error = [];
  retries = 0;
  created_at = 0;
  started_at = none;
  updated_at = 0;
}

-- The title, the seed and the song of a cover.
abbrev pub of_source : Request → (random : ℕ) → Option Song → Text × Option ℕ × Text
of_source r random none = (trim_space (r.form (codes "title")), seed_of r, [])
of_source r random (some src) = (src.title, seed_for r src random, src.id)

abbrev one_upload : Option (List Upload) → Bool
one_upload (some (u ∷ [])) = true
one_upload _ = false

-- Without a source song, exactly one upload and no address.
abbrev pub lacks_recording : Request → Option (List Upload) → Option Song → Bool
lacks_recording r uploads (some src) = false
lacks_recording r uploads none =
    not (is_empty (trim_space (r.form (codes "source_url")))) || not (one_upload uploads)

module _ (pk : Packages) (fs : Files) (c : Config) (d : Db) (now : ℕ) (id token name : Text)
    (random : ℕ) (uc : Option UserContext) (r : Request) (uploads : Option (List Upload)) where
  abbrev pub of_song : (song_id : Text) → Db × Tried Text → Db × Tried (Text × Text)
  of_song song_id (d', message text) = (d', message text)
  of_song song_id (d', got link) = (d', got (link, song_id))

  abbrev pub of_upload : (song_id : Text) → Option (List Upload) → Db × Tried (Text × Text)
  of_upload song_id (some (u ∷ us)) =
      if leb_ℤ u.size (pos 0) || ltb_ℤ (pos max_upload_bytes) u.size
      then (d, message (codes "That recording is too large — keep it under 64 MB."))
      else of_song [] (stage_upload pk fs c d now token name u (caller uc).user_id)
  of_upload song_id _ =
      if is_empty song_id
      then (d, message (codes "Upload a recording to make a cover."))
      else of_song song_id (mint_cover_url pk fs c d now token cover_link_audio song_id)

  -- The address that the worker fetches, and the song that it is of.
  unfoldable pub resolve_cover_source : (song_id : Text) → Db × Tried (Text × Text)
  unfolding trim_space is_fetchable_url stage_upload mint_cover_url caller
  resolve_cover_source song_id =
      let raw = trim_space (r.form (codes "source_url")) in
      if not (is_empty raw)
      then (
        d,
        if is_fetchable_url pk fs c raw
            then got (raw, [])
            else message (
                codes
                  "That is not a web address the model can fetch — it needs to start with http:// or https://"),
      )
      else of_upload song_id uploads

  abbrev pub queued_cover :
      (lyrics style title : Text)
      → (scale seed : Option ℕ) → Db × Tried (Text × Text)
      → Db × JobReply
  queued_cover lyrics style title scale seed (d', message text) = (d', job_error 400 text)
  queued_cover lyrics style title scale seed (d', got source) =
      queue_job d' now id uc (codes "cover") (cover_job lyrics style title source scale seed)

  abbrev pub scaled_cover : (lyrics style : Text) → Option Song → Option (Option ℕ) → Db × JobReply
  scaled_cover lyrics style src none =
      (d, job_error 400 (codes "Pick a style strength: off, balanced or strong."))
  scaled_cover lyrics style src (some scale) =
      let (title, seed, song_id) = of_source r random src in
      if lacks_recording r uploads src
      then (d, job_error 400 (codes "Upload one recording to make a cover."))
      else if ltb max_title (rune_count title)
          || ltb max_caption (length style)
          || ltb max_caption (length lyrics)
      then (
        d,
        job_error 400 (
            codes
              "Keep the title under 120 characters and the style and lyrics under 20,000 bytes each."),
      )
      else if bad_tag_line lyrics
      then (d, job_error 400 (codes "Every section tag like [Verse] needs its own line."))
      else queued_cover lyrics style title scale seed (resolve_cover_source song_id)

  unfoldable pub queue_cover : Option Song → Db × JobReply
  unfolding trim_space style_strength_of seed_of seed_for rune_count bad_tag_line
      resolve_cover_source queue_job
  queue_cover src =
      let style = trim_space (r.form (codes "instructions")) in
      let lyrics = trim_space (r.form (codes "input")) in
      if is_empty style
      then (d, job_error 400 (codes "Describe the style you want the cover in."))
      else scaled_cover lyrics style src (style_strength_of r (codes "balanced"))

  abbrev pub cover_source : Option Song → Db × JobReply
  cover_source none = (d, page not_found)
  cover_source (some src) =
      if not (text_eq src.engine engine_yue2) || not (yue2_enabled c)
      then (
        d,
        job_error 400 (
            codes
              "Covers need a song made with YuE2. Pick one of those, or generate a new YuE2 song first."),
      )
      else queue_cover (some src)

  -- handleCoverSong after the rate limit.
  unfoldable pub cover_song : (broken : Bool) → Db × JobReply
  unfolding source_song queue_cover text_eq yue2_enabled
  cover_song broken =
      if broken
      then (d, page (plain_error 500 (codes "Could not load that song.")))
      else cover_source (source_song d uc r)
