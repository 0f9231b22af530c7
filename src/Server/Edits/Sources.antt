-- ===== src/Server/Edits/Sources.antt =====
-- internal/server/handlers.go, handleEditSong: whose song an edit reaches, and what it asks of the worker.
use minmaxmusic3_web.Prelude.{
  ℕ, ◌≡◌, ◌⊎◌, true, false, Option, some, [], ◌∷◌, ◌++◌, Text, codes, trim_space, is_empty,
}
use minmaxmusic3_web.Store.Rows.{Song, Db}
use minmaxmusic3_web.Store.Jobs.{new_row}
use minmaxmusic3_web.Store.Songs.{song}
use minmaxmusic3_web.Server.Http.{Request}
use minmaxmusic3_web.Server.Access.{UserContext, caller, owns}
use minmaxmusic3_web.Server.Scores.{style_strength_of, seed_for}
use minmaxmusic3_web.Server.Edits.Asked.{Scored, Worded}
use minmaxmusic3_web.Server.Edits.{edit_job, Answered}

module _ (d : Db) (now : ℕ) (id : Text) (random : ℕ) (uc : Option UserContext) (r : Request) where
  -- One job more, the caller's: the words and the score as the form asks for them, and the engine,
  -- title and length of the source.
  abbrev pub AddsEdit : Song → Db → Type 0
  AddsEdit src d' =
      (score : Text) × (style : Text) × (lyrics : Text) × (scale : Option ℕ) × Scored r
        src.score_abc score
      × (style_strength_of r (codes "off") ≡ some scale)
      × Worded (trim_space (r.form (codes "instructions"))) src.caption style
      × Worded (trim_space (r.form (codes "input"))) src.lyrics lyrics
      × (d' ≡ record d {
        jobs =
            d.jobs
            ++ new_row (record (edit_job src score style lyrics scale (seed_for r src random)) {
              id = id;
              user_id = (caller uc).user_id;
              created_at = now;
            })
              ∷ [];
      })

  -- Nothing changes, or an edit of a song with a score is added, one that the caller may edit.
  abbrev pub Edits : Db × Answered → Type 0
  Edits p =
      (p.0 ≡ d)
      ⊎ ((src : Song) × (song d r.path_id (caller uc) ≡ some src)
          × (owns uc src ≡ true)
          × (is_empty (trim_space src.score_abc) ≡ false)
          × AddsEdit src p.0)

  abbrev Adds : Song → Db × Answered → Type 0
  Adds src p = (p.0 ≡ d) ⊎ AddsEdit src p.0
