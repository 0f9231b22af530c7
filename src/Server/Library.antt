-- ===== src/Server/Library.antt =====
-- internal/server/history.go: the two halves of the library, and what the owner of a song does to it.
pub mod Foreign
pub mod Pages
use minmaxmusic3_web.Prelude.{
  ℕ, ◌+◌, ◌-◌, ◌*◌, Bool, true, false, ◌&&◌, ◌||◌, not, Option, none, some, List, [], ◌++◌, map,
  ltb, if◌then◌else◌, length, take, Text, codes, text_eq, trim_space, is_empty, fold_case, ℤ, pos,
  negsuc, contains, or_text, atoi,
}
use minmaxmusic3_web.Store.Rows.{Song, Db, err_no_rows, Result, ok, err}
use minmaxmusic3_web.Store.Songs.{
  personal_songs, public_songs, set_song_public, delete_song, update_song_title,
}
use minmaxmusic3_web.Server.Http.{
  Request, Packages, Reply, plain_error, not_found, not_found_to, hx_redirect, hx_refresh,
  see_other, plain, is_htmx, safe_next,
}
use minmaxmusic3_web.Server.Access.{UserContext, caller, owns}

abbrev pub page_size : ℕ
page_size = 20

abbrev pub max_page : ℕ
max_page = 10000

abbrev clamped : Option ℤ → ℕ
clamped none = 1
clamped (some (negsuc n)) = 1
clamped (some (pos n)) = if ltb n 1 then 1 else if ltb max_page n then max_page else n

-- A page number from 1.
unfoldable pub page_param : Request → (key : Text) → ℕ
unfolding trim_space atoi
page_param r key = let v = trim_space (r.query key) in if is_empty v then 1 else clamped (atoi v)

pub record SongCard : Type 0 where
  pub song : Song
  pub can_edit : Bool

pub record SongSection : Type 0 where
  pub kind : Text
  pub heading : Text
  pub songs : List SongCard
  pub page : ℕ
  pub prev_page : ℕ
  pub next_page : ℕ
  pub has_prev : Bool
  pub has_next : Bool
  pub empty : Text
  pub show_owner_columns : Bool

abbrev card : Song → SongCard
card g = record { song = g; can_edit = false }

-- The query asks for one row more than a page.
unfoldable pub new_section :
    (kind heading : Text) → (page : ℕ) → List Song → (empty : Text) → SongSection
new_section kind heading page songs empty = record {
  kind = kind;
  heading = heading;
  songs = map card (if ltb page_size (length songs) then take page_size songs else songs);
  page = page;
  prev_page = page - 1;
  next_page = page + 1;
  has_prev = ltb 1 page;
  has_next = ltb page_size (length songs);
  empty = empty;
  show_owner_columns = false;
}

abbrev section_offset : ℕ → ℤ
section_offset page = pos ((page - 1) * page_size)

abbrev own_section : Db → (page : ℕ) → UserContext → SongSection
own_section d page uc =
    let sec =
      new_section (codes "personal") (codes "My Songs") page
        (personal_songs d uc.user_id (pos (page_size + 1)) (section_offset page))
        (codes
          "No songs in your library yet — describe a sound on the console and press Generate.") in
    record sec {
      show_owner_columns = true;
      songs = map (λ (c : SongCard). record c { can_edit = true }) sec.songs;
    }

-- none is an error, which answers 500.
unfoldable pub personal_section : Db → Option UserContext → (page : ℕ) → Option SongSection
unfolding new_section personal_songs
personal_section d none page = none
personal_section d (some uc) page = some (own_section d page uc)

unfoldable pub public_section : Db → Option UserContext → (page : ℕ) → SongSection
unfolding new_section public_songs owns
public_section d uc page =
    let sec =
      new_section (codes "public") (codes "Community Songs") page
        (public_songs d (pos (page_size + 1)) (section_offset page))
        (codes
          "Nothing has been shared yet. Publish one of your own songs to start the community library.") in
    record sec { songs = map (λ (c : SongCard). record c { can_edit = owns uc c.song }) sec.songs }

abbrev both : Option SongSection → SongSection → Option (SongSection × SongSection)
both none shared = none
both (some mine) shared = some (mine, shared)

-- The page with both halves; none answers 500.
unfoldable pub handle_history :
    Db → Option UserContext → Request → Option (SongSection × SongSection)
unfolding personal_section public_section page_param
handle_history d uc r =
    both (personal_section d uc (page_param r (codes "mine")))
      (public_section d uc (page_param r (codes "public")))

unfoldable pub handle_history_personal : Db → Option UserContext → Request → Option SongSection
unfolding personal_section page_param
handle_history_personal d uc r = personal_section d uc (page_param r (codes "page"))

unfoldable pub handle_history_public : Db → Option UserContext → Request → SongSection
unfolding public_section page_param
handle_history_public d uc r = public_section d uc (page_param r (codes "page"))

-- An explicit truth value; none is refused.
unfoldable pub parse_bool_field : Text → Option Bool
unfolding trim_space text_eq
parse_bool_field v =
    let t = fold_case (trim_space v) in
    if text_eq t (codes "1")
      || text_eq t (codes "true")
      || text_eq t (codes "on")
      || text_eq t (codes "yes")
    then some true
    else if text_eq t (codes "0")
        || text_eq t (codes "false")
        || text_eq t (codes "off")
        || text_eq t (codes "no")
    then some false
    else none

-- The control of the song, as a fragment or after a redirect.
pub data Toggled : Type 0 where
  answered : Reply → Toggled
  fragment : Song → Toggled

abbrev toggled : Request → Db × Option Song → Db × Toggled
toggled r (d, none) = (d, answered not_found)
toggled r (d, some g) =
    (d, if is_htmx r then fragment g else answered (see_other (codes "/songs/" ++ g.id)))

abbrev set_public : Db → Option UserContext → Request → Option Bool → Db × Toggled
set_public d uc r none = (
  d,
  answered
      (plain_error 400 (codes "Send public=1 to share this song or public=0 to make it private.")),
)
set_public d uc r (some public) = toggled r (set_song_public d r.path_id public (caller uc))

unfoldable pub handle_toggle_song_public : Db → Option UserContext → Request → Db × Toggled
unfolding parse_bool_field set_song_public caller is_htmx
handle_toggle_song_public d uc r =
    if not r.form_ok
    then (d, answered (plain_error 400 (codes "Could not read that form.")))
    else set_public d uc r (parse_bool_field (r.form (codes "public")))

abbrev renamed : Text → Db × Result (Unit {0}) → Db × Reply
renamed title (d, ok u) = (d, plain title)
renamed title (d, err err_no_rows) = (d, not_found)
renamed title (d, err e) = (d, plain_error 500 (codes "Could not update title."))

abbrev pub max_title_bytes : ℕ
max_title_bytes = 100

abbrev cut_title : Text → Text
cut_title title = if ltb max_title_bytes (length title) then take max_title_bytes title else title

unfoldable pub handle_update_song_title : Db → Option UserContext → Request → Db × Reply
unfolding trim_space update_song_title caller
handle_update_song_title d uc r =
    let title = trim_space (r.form (codes "title")) in
    if is_empty title
    then (d, plain_error 400 (codes "Title cannot be empty."))
    else renamed (cut_title title) (update_song_title d r.path_id (cut_title title) (caller uc))

module _ (pk : Packages) where
  abbrev hx_target : Request → Text → Text
  hx_target r target =
      if is_empty target && contains (r.header (codes "HX-Current-URL")) (codes "/songs/")
      then codes "/history"
      else target

  unfoldable pub answer_delete : Request → Reply
  unfolding is_htmx safe_next contains
  answer_delete r =
      let target = safe_next pk (r.query (codes "redirect")) in
      let location = hx_target r target in
      if not (is_htmx r)
      then see_other (or_text target (codes "/history"))
      else if is_empty location
      then hx_refresh
      else hx_redirect 200 location

  -- The audio file that is removed goes with the answer.
  abbrev removed : Request → Db × Result (Option Song) → Db × Reply × Text
  removed r (d, err e) = (d, plain_error 500 (codes "Could not delete that song."), [])
  removed r (d, ok none) = (d, if is_htmx r then not_found_to (codes "/history") else not_found, [])
  removed r (d, ok (some g)) = (d, answer_delete r, g.audio_path)

  unfoldable pub handle_delete_song : Db → Option UserContext → Request → Db × Reply × Text
  unfolding delete_song caller answer_delete is_htmx
  handle_delete_song d uc r = removed r (delete_song d r.path_id (caller uc))
