-- ===== src/Server/Covers.antt =====
-- internal/server/cover.go: covers of a recording, and the signed links by which the remote worker
-- fetches them. The names of files, the texts of the store's errors, and what becomes of an upload
-- on disk are arguments.
use minmaxmusic3_web.Prelude.{
  ℕ, ◌*◌, ◌^◌, Bool, true, false, ◌&&◌, ◌||◌, not, Option, none, some, [], ◌++◌, ltb, ◌==◌,
  if◌then◌else◌, Text, codes, text_eq, trim_space, is_empty, ℤ, pos, trim_right_byte,
}
use minmaxmusic3_web.Store.Rows.{Song, Db, Error, Result, ok, err}
use minmaxmusic3_web.Store.Songs.{song}
use minmaxmusic3_web.Store.Users.{cover_link_audio, cover_link_source}
use minmaxmusic3_web.Store.Links.{create_cover_link, cover_link, record_cover_upload}
use minmaxmusic3_web.Config.{Config}
use minmaxmusic3_web.Server.Http.{Packages, Url}

abbrev pub cover_link_ttl : ℕ
cover_link_ttl = 2 * 3600 * 1000000000

abbrev pub max_upload_bytes : ℕ
max_upload_bytes = 64 * 2 ^ 20

-- path/filepath, the text of an error of the store, and which files can be opened.
pub record Files : Type 0 where
  pub join : Text → Text → Text
  pub dir : Text → Text
  pub base : Text → Text
  pub error_text : Error → Text
  pub openable : Text → Bool

-- A file of the form: its declared size, an error before it is written, the bytes that are copied.
pub record Upload : Type 0 where
  pub size : ℤ
  pub prepare_error : Option Text
  pub copied : Option ℕ

-- A value, or the message of an error.
pub data Tried (A : Type 0) : Type 0 where
  got : A → Tried A
  message : Text → Tried A

unfoldable pub source_dir : Files → Config → Text
source_dir fs c = fs.join (fs.dir c.audio_dir) (codes "sources")

abbrev song_path : Option Song → Text
song_path none = []
song_path (some g) = g.audio_path

-- Empty is no path.
unfoldable pub signed_path : Files → Config → Db → (kind ref : Text) → Text
unfolding source_dir song text_eq
signed_path fs c d kind ref =
    if text_eq kind cover_link_audio
    then song_path (song d ref (record { user_id = []; admin = true }))
    else if text_eq kind cover_link_source
    then fs.join (source_dir fs c) (fs.base ref)
    else []

abbrev existing : Files → Text → Option Text
existing fs path = if is_empty path || not (fs.openable path) then none else some path

abbrev path_of_link : Files → Config → Db → Option (Text × Text) → Option Text
path_of_link fs c d none = none
path_of_link fs c d (some (kind, ref)) = existing fs (signed_path fs c d kind ref)

module _ (pk : Packages) (fs : Files) (c : Config) where
  -- The file that is served; none is not found.
  unfoldable pub handle_signed_source : Db → (now : ℕ) → (token : Text) → Option Text
  unfolding cover_link signed_path
  handle_signed_source d now token = path_of_link fs c d (cover_link pk.hash d now token)

  abbrev pub linked_url : Db × Result Text → Db × Tried Text
  linked_url (d, err e) = (d, message (fs.error_text e))
  linked_url (d, ok token) = (
    d,
    let url = trim_right_byte 47 c.public_url in
        if is_empty url
        then message (codes "cover: MM3_PUBLIC_URL is not set, so no absolute link can be built")
        else got (url ++ codes "/signed/" ++ token),
  )

  -- The link is stored before its address is known.
  unfoldable pub mint_cover_url : Db → (now : ℕ) → (token kind ref : Text) → Db × Tried Text
  unfolding create_cover_link trim_right_byte
  mint_cover_url d now token kind ref =
      linked_url (create_cover_link pk.hash d now token kind ref (pos cover_link_ttl))

  abbrev is_web : Option Url → Bool
  is_web none = false
  is_web (some u) =
      not (is_empty u.host) && (text_eq u.scheme (codes "http") || text_eq u.scheme (codes "https"))

  unfoldable pub is_fetchable_url : Text → Bool
  unfolding text_eq
  is_fetchable_url raw = is_web (pk.parse_url raw)

  abbrev pub written_name : (name : Text) → Option ℕ → Tried Text
  written_name name none =
      message (codes "Could not store the recording — choose a nonempty file under 64 MB.")
  written_name name (some n) =
      if n == 0 || ltb max_upload_bytes n
      then message (codes "Could not store the recording — choose a nonempty file under 64 MB.")
      else got name

  abbrev pub prepared_name : (name : Text) → Upload → Option Text → Tried Text
  prepared_name name u (some text) = message text
  prepared_name name u none = written_name name u.copied

  -- The random name of the file is an argument.
  unfoldable pub store_upload : (name : Text) → Upload → Tried Text
  store_upload name u = prepared_name name u u.prepare_error

  abbrev pub recorded : (now : ℕ) → (token name : Text) → Db × Result (Unit {0}) → Db × Tried Text
  recorded now token name (d, err e) = (d, message (fs.error_text e))
  recorded now token name (d, ok u) = mint_cover_url d now token cover_link_source name

  abbrev pub stored_then : Db → (now : ℕ) → (token user_id : Text) → Tried Text → Db × Tried Text
  stored_then d now token user_id (message text) = (d, message text)
  stored_then d now token user_id (got name) =
      recorded now token name (record_cover_upload d now name user_id)

  unfoldable pub stage_upload :
      Db → (now : ℕ) → (token name : Text) → Upload → (user_id : Text) → Db × Tried Text
  unfolding mint_cover_url store_upload record_cover_upload trim_space
  stage_upload d now token name u user_id =
      if is_empty (trim_space c.public_url)
      then (d, message (codes "Cover uploads are unavailable until MM3_PUBLIC_URL is configured."))
      else stored_then d now token user_id (store_upload name u)
