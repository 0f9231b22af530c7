-- ===== src/Server/CoverJobs/Queued.antt =====
-- internal/server/cover.go, handleCoverSong: what a request for a cover queues.
use minmaxmusic3_web.Server.Generate.Checks.{tag_shares_line}
use minmaxmusic3_web.Store.Songs.{song}
use minmaxmusic3_web.Server.Generate.{JobReply, pieces_of}
use minmaxmusic3_web.Store.Jobs.{new_row}
use minmaxmusic3_web.Server.CoverJobs.Recording.{Recording}
use minmaxmusic3_web.Server.CoverJobs.{of_source}
use minmaxmusic3_web.Prelude.{
  ℕ, ◌≡◌, ◌⊎◌, true, false, Option, some, List, [], ◌∷◌, ◌++◌, Text, codes, text_eq, trim_space,
  is_empty, any_row,
}
use minmaxmusic3_web.Store.Rows.{Db, Job, engine_yue2, mode_cover, queued, Song}
use minmaxmusic3_web.Config.{Config, yue2_enabled}
use minmaxmusic3_web.Server.Http.{Request, Packages}
use minmaxmusic3_web.Server.Access.{UserContext, caller, owns}
use minmaxmusic3_web.Server.Covers.{Files, Upload}

module _ (pk : Packages) (fs : Files) (c : Config) (d : Db) (now : ℕ) (id token name : Text)
    (random : ℕ) (uc : Option UserContext) (r : Request) (uploads : Option (List Upload)) where
  -- One job more: a YuE2 cover for the caller with the style and the words of the form, of the
  -- recording that the form gives; with a source song, under its title and filed under it where the
  -- recording is its own.
  abbrev pub AddsCover : Option Song → Db → Type 0
  AddsCover src d' =
      let (title, seed, song_id) = of_source r random src in
      (j : Job) × (d'.jobs ≡ d.jobs ++ new_row j ∷ [])
      × (j.user_id ≡ (caller uc).user_id)
      × (j.engine ≡ engine_yue2)
      × (j.mode ≡ mode_cover)
      × (j.title ≡ title)
      × (j.caption ≡ trim_space (r.form (codes "instructions")))
      × (j.lyrics ≡ trim_space (r.form (codes "input")))
      × (is_empty j.caption ≡ false)
      × (is_empty j.source_audio ≡ false)
      × Recording pk fs c d now id token name random uc r uploads song_id j.source_audio
          j.source_song_id
      × (any_row tag_shares_line (pieces_of j.lyrics) ≡ false)

  abbrev Adds : Option Song → Db × JobReply → Type 0
  Adds src p = (p.0.jobs ≡ d.jobs) ⊎ AddsCover src p.0

  abbrev asked_cover : Job → Job
  asked_cover j = record j {
    id = id;
    state = queued;
    user_id = (caller uc).user_id;
    created_at = now;
  }

  module _ (src : Option Song) where
    abbrev lyrics : Text
    lyrics = trim_space (r.form (codes "input"))

    abbrev style : Text
    style = trim_space (r.form (codes "instructions"))

  -- No job is touched, or a cover is added, made from a YuE2 song that the caller may cover.
  abbrev pub Covers : Db × JobReply → Type 0
  Covers p =
      (p.0.jobs ≡ d.jobs)
      ⊎ ((src : Song) × (song d r.path_id (caller uc) ≡ some src)
          × (owns uc src ≡ true)
          × (text_eq src.engine engine_yue2 ≡ true)
          × (yue2_enabled c ≡ true)
          × AddsCover (some src) p.0)
