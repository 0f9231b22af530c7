-- ===== src/Server/Auth.antt =====
-- internal/server/auth.go: sign-up, sign-in and sign-out. Random ids and tokens are arguments;
-- `broken` says that the lookup of the account fails.
pub mod SignUp
pub mod Opening
pub mod Outcomes
use minmaxmusic3_web.Prelude.{
  ℕ, ◌+◌, ◌*◌, Bool, true, false, ◌&&◌, ◌||◌, not, Option, none, some, [], ltb, if◌then◌else◌,
  length, Text, codes, text_eq, trim_space, is_empty, rune_count, contains_any, equal_fold, or_text,
}
use minmaxmusic3_web.Store.Rows.{
  User, Db, status_pending, status_approved, role_user, err_username_taken, Result, ok, err,
}
use minmaxmusic3_web.Config.{Config, admin_login_enabled}
use minmaxmusic3_web.Store.Users.{create_user, get_user_by_username}
use minmaxmusic3_web.Store.Sessions.{NewSession, create_session, delete_session}
use minmaxmusic3_web.Server.RateLimit.{Limiter, allow}
use minmaxmusic3_web.Server.Site.{Site}
use minmaxmusic3_web.Server.Http.{
  Request, Packages, Reply, login_page, register_page, see_other, Response, CookieChange, kept,
  cleared, set_to, answering, client_ip, safe_next,
}

abbrev pub session_ttl : ℕ
session_ttl = 7 * 24 * 3600 * 1000000000

abbrev pub min_username_len : ℕ
min_username_len = 3

abbrev pub max_username_len : ℕ
max_username_len = 64

abbrev pub min_password_len : ℕ
min_password_len = 8

abbrev pub max_password_len : ℕ
max_password_len = 72

abbrev pub config_admin_user_id : Text
config_admin_user_id = codes "config:admin"

abbrev pub notice_invalid : Text
notice_invalid = codes "Invalid username or password. Please try again."

abbrev pub notice_pending : Text
notice_pending =
    codes "Your account is awaiting approval by an administrator. Please check back later."

abbrev pub notice_disabled : Text
notice_disabled = codes "This account has been disabled. Please contact the administrator."

abbrev pub notice_registered : Text
notice_registered =
    codes
      "Account created successfully! Your registration is pending administrator approval before you can log in."

abbrev pub notice_signed_out : Text
notice_signed_out = codes "You have been logged out."

abbrev pub notice_sign_in : Text
notice_sign_in = codes "Please sign in to continue."

unfoldable pub notice_for : Text → Text
unfolding text_eq
notice_for key =
    if text_eq key (codes "registered")
    then notice_registered
    else if text_eq key (codes "signed-out")
    then notice_signed_out
    else if text_eq key (codes "signin")
    then notice_sign_in
    else if text_eq key (codes "pending")
    then notice_pending
    else if text_eq key (codes "disabled")
    then notice_disabled
    else []

-- The message for an unacceptable pair; empty is none.
unfoldable pub validate_credentials : (username password : Text) → Text
unfolding contains_any rune_count
validate_credentials username password =
    if ltb (rune_count username) min_username_len
    then codes "Choose a username of at least 3 characters."
    else if ltb max_username_len (rune_count username)
    then codes "That username is too long."
    else if contains_any username (codes " \t\r\n")
    then codes "Usernames cannot contain spaces."
    else if ltb (length password) min_password_len
    then codes "Choose a password of at least 8 characters."
    else if ltb max_password_len (length password)
    then codes "Passwords must be 72 characters or fewer."
    else []

abbrev pub account : (id username hash : Text) → User
account id username hash = record {
  id = id;
  username = username;
  password_hash = hash;
  status = status_pending;
  role = role_user;
  created_at = 0;
  updated_at = 0;
}

abbrev with_db : Site → Db × Response → Site × Response
with_db w (d, x) = (record w { db = d }, x)

abbrev pub session_for : (now : ℕ) → (user_id username : Text) → (config_admin : Bool) → NewSession
session_for now user_id username config_admin = record {
  user_id = user_id;
  username = username;
  config_admin = config_admin;
  created_at = some now;
  expires_at = some (now + session_ttl);
}

abbrev pub checked_once : CookieChange → Reply → Response
checked_once cookie reply = record { reply = reply; cookie = cookie; compares = 1 }

abbrev pub unusable : (username password : Text) → Bool
unusable username password =
    is_empty username || is_empty password || ltb max_password_len (length password)

module _ (pk : Packages) where
  abbrev pub render_login : (code : ℕ) → (notice username next : Text) → Reply
  render_login code notice username next = login_page code notice username (safe_next pk next)

  unfoldable pub handle_login_form : Request → Response
  unfolding notice_for safe_next
  handle_login_form r =
      answering
        (render_login 200 (notice_for (r.query (codes "notice"))) [] (r.query (codes "next")))

  abbrev throttled : Request → Response
  throttled r = answering (
      render_login 429 (codes "Too many attempts. Wait a few minutes and try again.") []
        (r.query (codes "next")))

  abbrev registered : Db × Result User → (username : Text) → Db × Response
  registered (d, ok u) username = (d, answering (see_other (codes "/login?notice=registered")))
  registered (d, err err_username_taken) username =
      (d, answering (register_page 409 (codes "That username is already taken.") []))
  registered (d, err e) username =
      (d, answering (register_page 500 (codes "Could not create the account.") username))

  abbrev hashed : Db → (now : ℕ) → (id username : Text) → Option Text → Db × Response
  hashed d now id username none =
      (d, answering (register_page 500 (codes "Could not create the account.") username))
  hashed d now id username (some hash) =
      registered (create_user d now none (account id username hash)) username

  -- After the rate limit.
  unfoldable pub register : Config → Db → (now : ℕ) → (id : Text) → Request → Db × Response
  unfolding trim_space validate_credentials text_eq equal_fold
  register c d now id r =
      let username = trim_space (r.form (codes "username")) in
      let password = r.form (codes "password") in
      let message = validate_credentials username password in
      if not r.form_ok
      then (d, answering (register_page 400 (codes "Could not read that form.") []))
      else if not (is_empty message)
      then (d, answering (register_page 400 message username))
      else if not (text_eq password (r.form (codes "confirm_password")))
      then (d, answering (register_page 400 (codes "The two passwords do not match.") username))
      else if not (is_empty c.admin_user) && equal_fold username c.admin_user
      then (d, answering (register_page 409 (codes "That username is not available.") []))
      else hashed d now id username (pk.bcrypt_generate password)

  abbrev register_allowed : Config → ℕ → Text → Request → Site → Limiter × Bool → Site × Response
  register_allowed c now id r w (l, b) =
      let w' : Site = record w { register_limiter = l } in
      if b then with_db w' (register c w.db now id r) else (w', throttled r)

  unfoldable pub handle_register :
      Config → Site → (now : ℕ) → (id : Text) → Request → Site × Response
  unfolding register allow client_ip
  handle_register c w now id r =
      register_allowed c now id r w (allow w.register_limiter now (client_ip pk c r))

  -- The session that the client came with is revoked first.
  abbrev pub without_old : Db → Request → Db
  without_old d r = if is_empty r.cookie then d else delete_session pk.hash d r.cookie

  unfoldable pub start_session :
      Db
      → (now : ℕ) → (token : Text) → Request
      → (user_id username : Text) → (config_admin : Bool) → Db × Result Text
  unfolding delete_session create_session
  start_session d now token r user_id username config_admin =
      create_session pk.hash (without_old d r) now token
        (session_for now user_id username config_admin)

  abbrev pub started : (now : ℕ) → (token username next : Text) → Db × Result Text → Db × Response
  started now token username next (d, ok h) =
      (d, checked_once (set_to token (now + session_ttl)) (see_other (or_text next (codes "/"))))
  started now token username next (d, err e) = (
    d,
    checked_once kept (render_login 500 (codes "Could not sign you in — try again.") username next),
  )

  -- The password is right from here on.
  abbrev pub by_status :
      Db → ℕ → (token : Text) → Request → (username next : Text) → User → Db × Response
  by_status d now token r username next u =
      if text_eq u.status status_approved
      then started now token username next (start_session d now token r u.id u.username false)
      else if text_eq u.status status_pending
      then (d, checked_once kept (render_login 403 notice_pending username next))
      else (d, checked_once kept (render_login 403 notice_disabled username next))

  abbrev pub login_failed : (username next : Text) → Response
  login_failed username next = checked_once kept (render_login 401 notice_invalid username next)

  abbrev of_account :
      Db
      → ℕ
      → (token : Text) → Request
      → (username password next : Text) → Option User
      → Db × Response
  of_account d now token r username password next none = (d, login_failed username next)
  of_account d now token r username password next (some u) =
      if pk.bcrypt_matches u.password_hash password
      then by_status d now token r username next u
      else (d, login_failed username next)

  abbrev of_admin :
      Config → Db → ℕ → (token : Text) → Request → (username password next : Text) → Db × Response
  of_admin c d now token r username password next =
      if text_eq password c.admin_password
      then started now token username next
          (start_session d now token r config_admin_user_id username true)
      else (d, login_failed username next)

  abbrev pub next_of : Request → Text
  next_of r = or_text (safe_next pk (r.form (codes "next"))) (safe_next pk (r.query (codes "next")))

  -- After the rate limit.
  unfoldable pub login :
      Config → (broken : Bool) → Db → (now : ℕ) → (token : Text) → Request → Db × Response
  unfolding trim_space text_eq safe_next start_session get_user_by_username admin_login_enabled
  login c broken d now token r =
      let username = trim_space (r.form (codes "username")) in
      let password = r.form (codes "password") in
      if not r.form_ok
      then (d, answering (render_login 400 notice_invalid [] []))
      else if unusable username password
      then (d, login_failed username (next_of r))
      else if admin_login_enabled c && text_eq username c.admin_user
      then of_admin c d now token r username password (next_of r)
      else if broken
      then (
        d,
        answering
            (render_login 500 (codes "Could not sign you in — try again.") username (next_of r)),
      )
      else of_account d now token r username password (next_of r) (get_user_by_username d username)

  abbrev login_allowed :
      Config → Bool → ℕ → Text → Request → Site → Limiter × Bool → Site × Response
  login_allowed c broken now token r w (l, b) =
      let w' : Site = record w { login_limiter = l } in
      if b then with_db w' (login c broken w.db now token r) else (w', throttled r)

  unfoldable pub handle_login :
      Config → (broken : Bool) → Site → (now : ℕ) → (token : Text) → Request → Site × Response
  unfolding login allow client_ip
  handle_login c broken w now token r =
      login_allowed c broken now token r w (allow w.login_limiter now (client_ip pk c r))

  unfoldable pub handle_logout : Db → Request → Db × Response
  unfolding delete_session
  handle_logout d r = (
    without_old d r,
    record { reply = see_other (codes "/login?notice=signed-out"); cookie = cleared; compares = 0 },
  )
