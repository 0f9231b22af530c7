-- ===== src/Store/Users.antt =====
-- internal/store/store.go, the accounts: sign-up, status, deletion and the last-administrator
-- guard.
pub mod Admins
pub mod Deletion
use minmaxmusic3_web.Prelude.{
  ℕ, Bool, ◌&&◌, ◌||◌, not, Option, none, some, List, [], ◌∷◌, ◌++◌, map, Text, codes, text_eq,
  is_empty, fold_case, if◌then◌else◌, leb, ◌==◌, select, first, update, remove, count_rows, any_row,
  sort_by,
}
use minmaxmusic3_web.Store.Rows.{
  Song, User, CoverLink, CoverUpload, Db, status_pending, status_approved, status_disabled,
  role_user, role_admin, err_username_taken, err_last_admin, err_no_rows, err_unknown_status,
  Result, ok, err, exec_affecting, with_tx,
}

abbrev or_default : Text → Text → Text
or_default v d = if is_empty v then d else v

abbrev or_now : Option ℕ → ℕ → ℕ
or_now none now = now
or_now (some t) now = t

-- The row that CreateUser inserts; `created` is none for the zero time.
unfoldable pub new_account : (now : ℕ) → (created : Option ℕ) → User → User
new_account now created u =
    let at : ℕ = or_now created now in
    record u {
      status = or_default u.status status_pending;
      role = or_default u.role role_user;
      created_at = at;
      updated_at = at;
    }

-- The id is the primary key and the username is unique up to case; either breach is the driver's
-- "UNIQUE constraint failed".
abbrev pub taken : User → User → Bool
taken u r = text_eq r.id u.id || text_eq (fold_case r.username) (fold_case u.username)

unfoldable pub create_user : Db → (now : ℕ) → (created : Option ℕ) → User → Db × Result User
create_user d now created u = if any_row (taken u) d.users then (d, err err_username_taken) else (
  record d { users = d.users ++ new_account now created u ∷ [] },
  ok (new_account now created u),
)

unfoldable pub get_user_by_id : Db → (id : Text) → Option User
get_user_by_id d id = first (λ r. text_eq r.id id) d.users

unfoldable pub get_user_by_username : Db → (username : Text) → Option User
get_user_by_username d username =
    first (λ r. text_eq (fold_case r.username) (fold_case username)) d.users

-- role = 'admin' AND status = 'approved'
abbrev pub is_approved_admin : User → Bool
is_approved_admin u = text_eq u.role role_admin && text_eq u.status status_approved

abbrev guard_row : Db → Text → Option User → Result (Unit {0})
guard_row d id none = err err_no_rows
guard_row d id (some u) =
    if not (is_approved_admin u)
    then ok tt
    else if count_rows (λ r. is_approved_admin r && not (text_eq r.id id)) d.users == 0
    then err err_last_admin
    else ok tt

unfoldable pub guard_last_admin : Db → (id : Text) → Result (Unit {0})
guard_last_admin d id = guard_row d id (first (λ r. text_eq r.id id) d.users)

abbrev is_known_status : Text → Bool
is_known_status s =
    text_eq s status_pending || text_eq s status_approved || text_eq s status_disabled

set_status : ℕ → Text → Text → Db → Db × Result (Unit {0})
set_status now id status d =
    let users' =
      update (λ (r : User). text_eq r.id id) (λ r. record r { status = status; updated_at = now })
        d.users in
    exec_affecting (count_rows (λ (r : User). text_eq r.id id) d.users) d (
      if text_eq status status_approved
      then record d { users = users' }
      else record d { users = users'; sessions = remove (λ r. text_eq r.user_id id) d.sessions })

status_body : ℕ → Text → Text → Db → Db × Result (Unit {0})
unfolding set_status
status_body now id status d =
    elim (if text_eq status status_approved then ok tt else guard_last_admin d id) [
      | ok u ↦ set_status now id status d
      | err e ↦ (d, err e)
    ]

unfoldable pub update_user_status : Db → (now : ℕ) → (id status : Text) → Db × Result (Unit {0})
unfolding status_body
update_user_status d now id status =
    if is_known_status status
    then with_tx (status_body now id status) d
    else (d, err err_unknown_status)

abbrev pub cover_link_audio : Text
cover_link_audio = codes "audio"

abbrev pub cover_link_source : Text
cover_link_source = codes "source"

abbrev pub cover_upload_dir : Text
cover_upload_dir = codes "/data/sources"

-- The statements of deleteUserRows, in their order.
-- kind = 'audio' AND ref IN (SELECT id FROM songs WHERE user_id = ?)
abbrev pub links_user_song : Text → Db → CoverLink → Bool
links_user_song id d l =
    text_eq l.kind cover_link_audio
    && any_row (λ (s : Song). text_eq s.user_id id && text_eq s.id l.ref) d.songs

-- kind = 'source' AND ref IN (SELECT name FROM cover_uploads WHERE user_id = ?)
abbrev pub links_user_upload : Text → Db → CoverLink → Bool
links_user_upload id d l =
    text_eq l.kind cover_link_source
    && any_row (λ (u : CoverUpload). text_eq u.user_id id && text_eq u.name l.ref) d.cover_uploads

delete_audio_links : Text → Db → Db
delete_audio_links id d = record d { cover_links = remove (links_user_song id d) d.cover_links }

delete_source_links : Text → Db → Db
delete_source_links id d = record d { cover_links = remove (links_user_upload id d) d.cover_links }

delete_uploads : Text → Db → Db
delete_uploads id d = record d {
  cover_uploads = remove (λ r. text_eq r.user_id id) d.cover_uploads;
}

delete_songs : Text → Db → Db
delete_songs id d = record d { songs = remove (λ r. text_eq r.user_id id) d.songs }

delete_jobs : Text → Db → Db
delete_jobs id d = record d { jobs = remove (λ r. text_eq r.user_id id) d.jobs }

delete_sessions : Text → Db → Db
delete_sessions id d = record d { sessions = remove (λ r. text_eq r.user_id id) d.sessions }

unfoldable pub delete_user_rows : Text → Db → Db × Result (Unit {0})
unfolding delete_audio_links delete_source_links delete_uploads delete_songs delete_jobs
    delete_sessions
delete_user_rows id d =
    let d' = delete_sessions id (
      delete_jobs id
        (delete_songs id (delete_uploads id (delete_source_links id (delete_audio_links id d))))) in
    exec_affecting (count_rows (λ (r : User). text_eq r.id id) d'.users) d'
      (record d' { users = remove (λ r. text_eq r.id id) d'.users })

-- `join` is filepath.Join.
module _ (join : Text → Text → Text) where
  unfoldable pub user_files : Text → Db → List Text
  user_files id d =
      map (λ (s : Song). s.audio_path)
        (select (λ (s : Song). text_eq s.user_id id && not (is_empty s.audio_path)) d.songs)
      ++ map (λ (u : CoverUpload). join cover_upload_dir u.name)
          (select (λ (u : CoverUpload). text_eq u.user_id id && not (is_empty u.name))
            d.cover_uploads)

  abbrev with_paths : List Text → Db × Result (Unit {0}) → Db × Result (List Text)
  with_paths paths (d, ok u) = (d, ok paths)
  with_paths paths (d, err e) = (d, err e)

  delete_body : Text → Db → Db × Result (List Text)
  delete_body id d = elim (guard_last_admin d id) [
    | ok u ↦ with_paths (user_files id d) (delete_user_rows id d)
    | err e ↦ (d, err e)
  ]

  unfoldable pub delete_user : Db → (id : Text) → Db × Result (List Text)
  unfolding delete_body
  delete_user d id = with_tx (delete_body id) d

unfoldable pub delete_user_row : Db → (id : Text) → Db
delete_user_row d id = record d { users = remove (λ r. text_eq r.id id) d.users }

unfoldable pub list_users : Db → List User
list_users d = sort_by (λ (a b : User). leb b.created_at a.created_at) d.users

unfoldable pub count_pending_users : Db → ℕ
count_pending_users d = count_rows (λ r. text_eq r.status status_pending) d.users
