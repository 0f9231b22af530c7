-- ===== src/Server/Tests.antt =====
-- internal/server: concrete requests, to a site with an administrator and a user who has a song.
use minmaxmusic3_web.Store.Users.{get_user_by_username, count_pending_users}
use minmaxmusic3_web.Prelude.{
  ℕ, ◌+◌, ◌≡◌, refl, Bool, true, false, ◌&&◌, not, none, some, List, [], ◌∷◌, ◌++◌, arith,
  if◌then◌else◌, Text, codes, text_eq, trim_space, has_prefix, is_empty, fold_byte, first, remove,
  count_rows, any_row, pos, equal_fold,
}
use minmaxmusic3_web.Store.Rows.{
  User, Song, Db, status_approved, role_user, role_admin, engine_yue2, mode_create,
}
use minmaxmusic3_web.Store.Sessions.{get_session, resolve, create_session, delete_session}
use minmaxmusic3_web.Store.Songs.{song}
use minmaxmusic3_web.Config.{Config, load, Loaded, admin_login_enabled, load-Loaded}
use minmaxmusic3_web.Server.Http.{Url, Request, Packages, Response, safe_method}
use minmaxmusic3_web.Server.Access.{UserContext, protect, caller, authenticate, level_for}
use minmaxmusic3_web.Server.Access.Entry.{Admits, protect-SignedIn}
use minmaxmusic3_web.Server.Auth.{
  login, register, session_ttl, login_failed, next_of, start_session,
}
use minmaxmusic3_web.Server.Auth.Outcomes.{login-unverified, verified}
use minmaxmusic3_web.Server.Auth.Opening.{SignsIn, login-SignsIn}
use minmaxmusic3_web.Server.Auth.SignUp.{SignsUp, register-SignsUp}
use minmaxmusic3_web.Server.Library.Pages.{ShowsLibrary, handle_history-Shows}
use minmaxmusic3_web.Server.Library.Foreign.{LeavesAlone, foreign_song-LeavesAlone, empty_db}
use minmaxmusic3_web.Server.RateLimit.{Limiter, allowed_for, allowed_for_exact}

-- Two visitors, a limit of one in a window that has begun.
abbrev begun : Limiter
begun = record { window = 10; limit = 1; counts = λ k. 0; reset_at = 15 }

abbrev visits : List (ℕ × Text)
visits = (6, codes "a") ∷ (7, codes "b") ∷ (8, codes "a") ∷ []

allowed_example : allowed_for (codes "a") begun visits ≡ 1
unfolding count_rows text_eq
allowed_example =
    allowed_for_exact (codes "a") begun visits (omega arith, (omega arith, (omega arith, tt)))

-- The path of this site that a text is.
abbrev path_url : Text → Url
path_url t = record {
  scheme = [];
  host = [];
  opaque = [];
  has_user = false;
  path = t;
  escaped_path = t;
  raw_query = [];
}

abbrev pub packages : Packages
packages = record {
  hash = λ t. t;
  bcrypt_generate = λ t. some t;
  bcrypt_matches = text_eq;
  parse_url = λ t. some (path_url t);
  clean = λ t. t;
  query_escape = λ t. t;
  parse_ip = λ t. none;
  split_host = λ t. none;
  mux = λ ps r. if has_prefix r.path (codes "/admin") then some (codes "/admin/") else none;
}

abbrev pub ann : User
ann = record {
  id = codes "a1";
  username = codes "Ann";
  password_hash = codes "secret";
  status = status_approved;
  role = role_admin;
  created_at = 1;
  updated_at = 1;
}

abbrev pub bob : User
bob = record {
  id = codes "u1";
  username = codes "Bob";
  password_hash = codes "hunter2";
  status = status_approved;
  role = role_user;
  created_at = 2;
  updated_at = 2;
}

abbrev song_one : Song
song_one = record {
  id = codes "s1";
  job_id = codes "j1";
  user_id = codes "u1";
  is_public = false;
  lyrics = [];
  caption = codes "pop";
  idea = [];
  duration = 0;
  seed = none;
  engine = engine_yue2;
  delivery = codes "s3";
  audio_path = codes "/data/audio/s1.m4a";
  title = codes "One";
  mode = mode_create;
  cot = [];
  score_abc = codes "M:3/4\nQ:1/4=90\nK:G\nGAB";
  source_song_id = [];
  truncated = false;
  created_at = 8;
}

abbrev pub token : Text
token = codes "0123456789abcdef0123456789abcdef"

abbrev pub fresh_token : Text
fresh_token = codes "ffffffffffffffffffffffffffffffff"

abbrev pub site_db : Db
site_db = record empty_db {
  users = ann ∷ bob ∷ [];
  songs = song_one ∷ [];
  sessions =
      record {
        token_hash = token;
        user_id = codes "a1";
        username = codes "Ann";
        config_admin = false;
        created_at = 3;
        expires_at = 100;
      }
      ∷ [];
}

abbrev settings : Text → Text
settings k =
    if text_eq k (codes "ADMIN_USER")
    then codes "root"
    else if text_eq k (codes "ADMIN_PASSWORD")
    then codes "rootpw"
    else []

abbrev pub config : Config
config = record {
  addr = codes ":8080";
  public_url = [];
  client_ip_header = [];
  web_dir = codes "/app/web";
  db_path = codes "/data/mm3.db";
  audio_dir = codes "/data/audio";
  max_in_flight = pos 2;
  runpod_endpoint = [];
  runpod_api_key = [];
  yue2_endpoint = [];
  acoustid_api_key = [];
  yue2_api_key = [];
  llm_base_url = [];
  llm_api_key = [];
  llm_model_id = [];
  llm_thinking = codes "disabled";
  llm_reasoning_effort = codes "none";
  admin_user = codes "root";
  admin_password = codes "rootpw";
}

load_example :
    Loaded settings config
    × (admin_login_enabled config ≡ (
        not (is_empty (settings (codes "ADMIN_USER")))
        && not (is_empty (settings (codes "ADMIN_PASSWORD")))))
unfolding load text_eq
load_example = load-Loaded settings config refl

abbrev pub asked : (path id cookie : Text) → (form : Text → Text) → Request
asked path id cookie form = record {
  method = codes "GET";
  path = path;
  request_uri = path;
  host = codes "music.example";
  remote_addr = codes "10.0.0.1";
  tls = true;
  header = λ k. [];
  query = λ k. [];
  form_ok = true;
  form = form;
  path_id = id;
  cookie = cookie;
}

abbrev pub no_form : Text → Text
no_form k = []

abbrev as_ann : UserContext
as_ann = record {
  user_id = codes "a1";
  username = codes "Ann";
  is_admin = true;
  config_admin = false;
  status = status_approved;
  pending_count = 0;
}

abbrev admin_page : Request
admin_page = asked (codes "/admin/users") [] token no_form

protect_example : Admits packages site_db 20 admin_page config (some as_ann)
unfolding protect safe_method authenticate get_session resolve level_for first has_prefix text_eq
    count_rows any_row count_pending_users
protect_example = protect-SignedIn packages site_db 20 admin_page config false (some as_ann) refl

-- A form with a name and the same password twice.
abbrev filled : (name password : Text) → Text → Text
filled name password k = if text_eq k (codes "username") then name else password

abbrev wrong_password : Request
wrong_password = asked (codes "/login") [] [] (filled (codes "Bob") (codes "guess"))

login_unverified_example :
    login packages config false site_db 20 fresh_token wrong_password
    ≡ (site_db, login_failed packages (codes "Bob") (next_of packages wrong_password))
unfolding first text_eq equal_fold trim_space admin_login_enabled get_user_by_username fold_byte
login_unverified_example =
    login-unverified packages config site_db 20 fresh_token wrong_password refl refl

abbrev bob_signs_in : Request
bob_signs_in = asked (codes "/login") [] token (filled (codes "Bob") (codes "hunter2"))

abbrev bob_answer : Db × Response
bob_answer = login packages config false site_db 20 fresh_token bob_signs_in

login_example :
    (verified packages config site_db 20 fresh_token bob_signs_in ≡ true)
    × (20 + session_ttl ≡ 20 + session_ttl)
    × SignsIn packages config site_db 20 fresh_token bob_signs_in bob_answer.0 fresh_token
unfolding login start_session create_session delete_session first text_eq equal_fold trim_space
    any_row fold_byte remove
login_example =
    login-SignsIn packages config site_db bob_answer.0 20 fresh_token bob_signs_in false
      bob_answer.1 fresh_token (20 + session_ttl) refl refl

abbrev eve_signs_up : Request
eve_signs_up = asked (codes "/register") [] [] (filled (codes "Evelyn") (codes "correct horse"))

register_example :
    SignsUp packages config site_db 20
      (codes "e1")
      eve_signs_up
      (register packages config site_db 20 (codes "e1") eve_signs_up)
register_example = register-SignsUp packages config site_db 20 (codes "e1") eve_signs_up

abbrev slashed : Text → Text → Text
slashed a b = a ++ 47 ∷ b

abbrev kept_files : Text → Bool
kept_files path = false

abbrev disable_bob : Request
disable_bob = asked (codes "/admin/users") (codes "u1") token no_form

abbrev pub as_bob : UserContext
as_bob = record as_ann { user_id = codes "u1"; username = codes "Bob"; is_admin = false }

history_example : ShowsLibrary site_db as_bob (asked (codes "/history") [] token no_form)
history_example = handle_history-Shows site_db as_bob (asked (codes "/history") [] token no_form)

abbrev as_eve : UserContext
as_eve = record as_bob { user_id = codes "e1"; username = codes "Evelyn" }

abbrev song_asked : Request
song_asked = asked (codes "/songs/s1") (codes "s1") token no_form

foreign_song_example : LeavesAlone packages site_db (some as_eve) song_asked
unfolding song caller first text_eq
foreign_song_example = foreign_song-LeavesAlone packages site_db (some as_eve) song_asked refl
