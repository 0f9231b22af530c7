-- ===== src/Store/Songs.antt =====
-- internal/store/store.go, the songs table: the scoped reads, paging, sharing, renaming and
-- deletion.
pub mod Ownership
pub mod Paging
pub mod PerJob
use minmaxmusic3_web.Prelude.{
  Bool, true, ◌&&◌, ◌||◌, Option, none, some, List, [], ◌∷◌, ◌++◌, Text, text_eq, is_empty,
  if◌then◌else◌, leb, select, first, update, remove, count_rows, any_row, sort_by, take, drop, ℤ,
  pos, pos_part, ltb_ℤ,
}
use minmaxmusic3_web.Store.Rows.{
  Song, Db, err_no_rows, Result, ok, err, Access, owned_by, engine_or, mode_or, owner,
  exec_affecting, with_tx,
}

-- INSERT OR IGNORE, with the primary key on id and the unique index on job_id.
unfoldable pub create_song : Db → Song → Db
create_song d g =
    if any_row (λ r. text_eq r.id g.id || text_eq r.job_id g.job_id) d.songs then d else record d {
      songs =
          d.songs
          ++ record g {
            user_id = owner g.user_id;
            engine = engine_or g.engine;
            mode = mode_or g.mode;
          }
            ∷ [];
    }

abbrev pub visible : Text → Access → Song → Bool
visible id a r = text_eq r.id id && owned_by a r.user_id

unfoldable pub song : Db → (id : Text) → Access → Option Song
song d id a = first (visible id a) d.songs

unfoldable pub public_song : Db → (id : Text) → Option Song
public_song d id = first (λ r. text_eq r.id id && r.is_public) d.songs

unfoldable pub song_for_job : Db → (job_id : Text) → Option Song
song_for_job d job_id = first (λ r. text_eq r.job_id job_id) d.songs

abbrev pub max_page_size : ℤ
max_page_size = pos 100

abbrev clamp_limit : ℤ → ℤ
clamp_limit limit = if ltb_ℤ max_page_size limit then max_page_size else limit

unfoldable pub clamp_page : ℤ → ℤ → ℤ × ℤ
clamp_page limit offset = (
  clamp_limit (if ltb_ℤ limit (pos 1) then pos 1 else limit),
  if ltb_ℤ offset (pos 0) then pos 0 else offset,
)

-- ORDER BY created_at DESC LIMIT ? OFFSET ? under a WHERE test.
unfoldable pub page : Db → (Song → Bool) → ℤ × ℤ → List Song
page d test (limit, offset) = take (pos_part limit) (
    drop (pos_part offset)
      (sort_by (λ (a b : Song). leb b.created_at a.created_at) (select test d.songs)))

unfoldable pub personal_songs : Db → (user_id : Text) → ℤ → ℤ → List Song
personal_songs d user_id limit offset =
    page d (λ r. text_eq r.user_id user_id) (clamp_page limit offset)

unfoldable pub public_songs : Db → ℤ → ℤ → List Song
public_songs d limit offset = page d (λ r. r.is_public) (clamp_page limit offset)

unfoldable pub songs : Db → ℤ → ℤ → Access → List Song
songs d limit offset a =
    if a.admin
    then page d (λ r. true) (clamp_page limit offset)
    else page d (λ r. text_eq r.user_id a.user_id) (clamp_page limit offset)

-- The job goes with the song, unless the song has none.
abbrev delete_job_of : Song → Db → Db
delete_job_of g d =
    if is_empty g.job_id then d else record d { jobs = remove (λ r. text_eq r.id g.job_id) d.jobs }

delete_song_rows : Text → Access → Song → Db → Db × Result (Unit {0})
delete_song_rows id a g d =
    let n = count_rows (visible id a) d.songs in
    exec_affecting n d (delete_job_of g (record d { songs = remove (visible id a) d.songs }))

-- errors.Is(err, sql.ErrNoRows) becomes a nil song.
abbrev deleted : Song → Db × Result (Unit {0}) → Db × Result (Option Song)
deleted g (d, ok u) = (d, ok (some g))
deleted g (d, err err_no_rows) = (d, ok none)
deleted g (d, err e) = (d, err e)

unfoldable pub delete_song : Db → (id : Text) → Access → Db × Result (Option Song)
unfolding delete_song_rows
delete_song d id a = elim (song d id a) [
  | none ↦ (d, ok none)
  | some g ↦ deleted g (with_tx (delete_song_rows id a g) d)
]

unfoldable pub set_song_public : Db → (id : Text) → (public : Bool) → Access → Db × Option Song
set_song_public d id public a =
    let songs' = update (visible id a) (λ r. record r { is_public = public }) d.songs in
    (record d { songs = songs' }, first (visible id a) songs')

unfoldable pub update_song_title : Db → (id title : Text) → Access → Db × Result (Unit {0})
update_song_title d id title a =
    exec_affecting (count_rows (visible id a) d.songs) d
      (record d { songs = update (visible id a) (λ r. record r { title = title }) d.songs })
