-- ===== src/Store/Sessions.antt =====
-- internal/store/store.go, the sessions table. `hash` is hashToken, the SHA-256 in hexadecimal.
pub mod Live
use minmaxmusic3_web.Prelude.{
  ℕ, Bool, true, ◌&&◌, Option, none, some, [], ◌∷◌, ◌++◌, length, Text, text_eq, if◌then◌else◌, ltb,
  leb, first, remove, count_rows, any_row,
}
use minmaxmusic3_web.Store.Rows.{
  User, SessionRow, Db, status_approved, role_admin, err_constraint, err_short_token,
  err_needs_expiry, Result, ok, err,
}

-- What GetSession answers: the row, with privilege and status as they are now.
pub record Session : Type 0 where
  pub token_hash : Text
  pub user_id : Text
  pub username : Text
  pub config_admin : Bool
  pub is_admin : Bool
  pub status : Text
  pub created_at : ℕ
  pub expires_at : ℕ

-- What CreateSession reads; none is the zero time.
pub record NewSession : Type 0 where
  pub user_id : Text
  pub username : Text
  pub config_admin : Bool
  pub created_at : Option ℕ
  pub expires_at : Option ℕ

abbrev pub min_token_len : ℕ
min_token_len = 32

abbrev created_or : Option ℕ → ℕ → ℕ
created_or none now = now
created_or (some t) now = t

-- The account behind a session, as the LEFT JOIN gives it.
unfoldable pub resolve : SessionRow → Option User → Option Session
resolve s (some u) = some (record {
  token_hash = s.token_hash;
  user_id = s.user_id;
  username = u.username;
  config_admin = s.config_admin;
  is_admin = text_eq u.role role_admin;
  status = u.status;
  created_at = s.created_at;
  expires_at = s.expires_at;
})
resolve s none =
    if s.config_admin
    then some (record {
      token_hash = s.token_hash;
      user_id = s.user_id;
      username = s.username;
      config_admin = s.config_admin;
      is_admin = true;
      status = status_approved;
      created_at = s.created_at;
      expires_at = s.expires_at;
    })
    else none

abbrev joined : Db → Option SessionRow → Option Session
joined d none = none
joined d (some s) = resolve s (first (λ u. text_eq u.id s.user_id) d.users)

abbrev pub lapsed : ℕ → SessionRow → Bool
lapsed now r = leb r.expires_at now

module _ (hash : Text → Text) where
  -- The row of a new session.
  abbrev pub row_of : (now : ℕ) → (token : Text) → NewSession → (expires : ℕ) → SessionRow
  row_of now token s expires = record {
    token_hash = hash token;
    user_id = s.user_id;
    username = s.username;
    config_admin = s.config_admin;
    created_at = created_or s.created_at now;
    expires_at = expires;
  }

  pub insert_session : Db → ℕ → Text → NewSession → ℕ → Db × Result Text
  insert_session d now token s expires =
      if any_row (λ r. text_eq r.token_hash (hash token)) d.sessions
      then (d, err err_constraint)
      else (record d { sessions = d.sessions ++ row_of now token s expires ∷ [] }, ok (hash token))

  -- Answers the hash that it stored.
  unfoldable pub create_session : Db → (now : ℕ) → (token : Text) → NewSession → Db × Result Text
  unfolding insert_session
  create_session d now token s =
      if ltb (length token) min_token_len then (d, err err_short_token) else elim s.expires_at [
        | none ↦ (d, err err_needs_expiry)
        | some expires ↦ insert_session d now token s expires
      ]

  -- s.token_hash = ? AND s.expires_at > ?
  abbrev pub live_token : ℕ → Text → SessionRow → Bool
  live_token now token r = text_eq r.token_hash (hash token) && ltb now r.expires_at

  unfoldable pub get_session : Db → (now : ℕ) → (token : Text) → Option Session
  get_session d now token = joined d (first (live_token now token) d.sessions)

  unfoldable pub delete_session : Db → (token : Text) → Db
  delete_session d token = record d {
    sessions = remove (λ r. text_eq r.token_hash (hash token)) d.sessions;
  }

unfoldable pub delete_config_admin_sessions : Db → Db × ℕ
delete_config_admin_sessions d = (
  record d { sessions = remove (λ r. r.config_admin) d.sessions },
  count_rows (λ r. r.config_admin) d.sessions,
)

unfoldable pub delete_user_sessions : Db → (user_id : Text) → Db × ℕ
delete_user_sessions d user_id = (
  record d { sessions = remove (λ r. text_eq r.user_id user_id) d.sessions },
  count_rows (λ r. text_eq r.user_id user_id) d.sessions,
)

unfoldable pub delete_expired_sessions : Db → (now : ℕ) → Db × ℕ
delete_expired_sessions d now =
    (record d { sessions = remove (lapsed now) d.sessions }, count_rows (lapsed now) d.sessions)
