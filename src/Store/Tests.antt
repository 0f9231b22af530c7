-- ===== src/Store/Tests.antt =====
-- The store's theorems at one small database: an administrator, a user with a song, its job, a
-- staged recording, a session and links to both.
use minmaxmusic3_web.Prelude.{
  ◌≤◌, ◌<◌, ◌≡◌, refl, subst, ◌≢◌, ◌⊎◌, inl, inr, Bool, true, false, none, some, List, [], ◌∷◌,
  ◌++◌, arith, ltb, if◌then◌else◌, Bool-cases, Text, codes, text_eq, text_eq_sound,
  text_eq_complete, select, first, remove, count_rows, any_row, pos,
}
use minmaxmusic3_web.Store.Rows.{
  Job, Song, User, Db, succeeded, status_approved, status_disabled, role_user, role_admin,
  engine_minimax, mode_create, Error, ok, err, Access,
}
use minmaxmusic3_web.Store.Jobs.{job}
use minmaxmusic3_web.Store.Songs.{create_song, song, delete_song}
use minmaxmusic3_web.Store.Songs.Ownership.{delete_song_removes}
use minmaxmusic3_web.Store.Songs.PerJob.{OneSongPerJob, create_song_once}
use minmaxmusic3_web.Store.Users.{
  cover_link_audio, cover_link_source, get_user_by_id, guard_last_admin, delete_user,
  delete_user_rows, user_files,
}
use minmaxmusic3_web.Store.Users.Admins.{
  Governed, with_id, AccountOp, set_status_to, delete_account, apply_all, admin_survives,
}
use minmaxmusic3_web.Store.Users.Deletion.{Erased, delete_user_complete}
use minmaxmusic3_web.Store.Sessions.{
  Session, NewSession, resolve, row_of, create_session, get_session,
}
use minmaxmusic3_web.Store.Sessions.Live.{get_session_live, Opens, create_session-get_session}
use minmaxmusic3_web.Store.Links.{create_cover_link, cover_link}
use minmaxmusic3_web.Store.Links.Expiry.{create_cover_link-cover_link}

abbrev ann : User
ann = record {
  id = codes "a1";
  username = codes "Ann";
  password_hash = codes "x";
  status = status_approved;
  role = role_admin;
  created_at = 1;
  updated_at = 1;
}

abbrev bob : User
bob = record {
  id = codes "u1";
  username = codes "Bob";
  password_hash = codes "y";
  status = status_approved;
  role = role_user;
  created_at = 2;
  updated_at = 2;
}

abbrev job_one : Job
job_one = record {
  id = codes "j1";
  state = succeeded;
  runpod_id = codes "r1";
  user_id = codes "u1";
  lyrics = codes "la";
  caption = codes "pop";
  engine = engine_minimax;
  mode = mode_create;
  cot = [];
  abc = [];
  source_audio = [];
  source_song_id = [];
  instrumental = false;
  cfg_scale = none;
  idea = [];
  title = codes "One";
  duration = 0;
  seed = none;
  error = [];
  retries = 0;
  created_at = 5;
  started_at = some 6;
  updated_at = 7;
}

abbrev song_one : Song
song_one = record {
  id = codes "s1";
  job_id = codes "j1";
  user_id = codes "u1";
  is_public = false;
  lyrics = codes "la";
  caption = codes "pop";
  idea = [];
  duration = 0;
  seed = none;
  engine = engine_minimax;
  delivery = codes "s3";
  audio_path = codes "/data/audio/s1.m4a";
  title = codes "One";
  mode = mode_create;
  cot = [];
  score_abc = [];
  source_song_id = [];
  truncated = false;
  created_at = 8;
}

abbrev token : Text
token = codes "0123456789abcdef0123456789abcdef"

-- A hash, and a join of path elements, for the tests.
abbrev plain : Text → Text
plain t = t

abbrev slashed : Text → Text → Text
slashed a b = a ++ 47 ∷ b

abbrev shop : Db
shop = record {
  jobs = job_one ∷ [];
  songs = song_one ∷ [];
  users = ann ∷ bob ∷ [];
  sessions =
      record {
        token_hash = token;
        user_id = codes "u1";
        username = codes "Bob";
        config_admin = false;
        created_at = 3;
        expires_at = 100;
      }
      ∷ [];
  cover_links =
      record {
        token_hash = codes "k1";
        kind = cover_link_audio;
        ref = codes "s1";
        created_at = 4;
        expires_at = 50;
      }
      ∷ record {
        token_hash = codes "k2";
        kind = cover_link_source;
        ref = codes "up.wav";
        created_at = 4;
        expires_at = 50;
      }
      ∷ [];
  cover_uploads = record { name = codes "up.wav"; user_id = codes "u1"; created_at = 4 } ∷ [];
}

abbrev as_bob : Access
as_bob = record { user_id = codes "u1"; admin = false }

abbrev as_eve : Access
as_eve = record { user_id = codes "e1"; admin = false }

other_id : codes "s2" ≢ codes "s1"
unfolding text_eq
other_id e = absurd (distinct (text_eq_complete (codes "s2") (codes "s1") e))
  where
    distinct : ◌≡◌ {A = Bool} false true → ⊥
    distinct h = cc

delete_song_example :
    let (d', r) = delete_song shop (codes "s1") as_bob in
    (r ≡ ok (some song_one))
    × (song d' (codes "s1") as_bob ≡ none)
    × (job d' (codes "j1") as_bob ≡ none)
    × (song d' (codes "s2") as_bob ≡ song shop (codes "s2") as_bob)
unfolding song first text_eq
delete_song_example =
    delete_song_removes shop (codes "s1") (codes "s2") as_bob as_bob song_one refl other_id refl

shop-OneSongPerJob : OneSongPerJob shop
unfolding count_rows
shop-OneSongPerJob k = ground arith

create_song_once_example :
    OneSongPerJob (create_song shop (record song_one { id = codes "s2" }))
    × (create_song
          (create_song shop (record song_one { id = codes "s2" }))
          (record song_one { id = codes "s3" })
        ≡ create_song shop (record song_one { id = codes "s2" }))
unfolding any_row text_eq
create_song_once_example =
    create_song_once shop (record song_one { id = codes "s2" })
      (record song_one { id = codes "s3" }) shop-OneSongPerJob refl refl

distinct_ids : (k : Text) → count_rows (with_id k) (ann ∷ bob ∷ []) ≤ 1
unfolding count_rows text_eq
distinct_ids k = elim (Bool-cases (text_eq (codes "a1") k)) [
  | inl e ↦
      subst (λ x. count_rows (with_id x) (ann ∷ bob ∷ []) ≤ 1) (text_eq_sound (codes "a1") k e)
        (omega arith)
  | inr n ↦ ground arith
]

shop-Governed : Governed shop
unfolding count_rows text_eq
shop-Governed = record { unique = distinct_ids; admin = omega arith }

abbrev account_ops : List (AccountOp slashed)
account_ops =
    delete_account (codes "a1")
    ∷ set_status_to 9 (codes "a1") status_disabled
    ∷ delete_account (codes "u1")
    ∷ []

admin_survives_example : Governed (apply_all slashed shop account_ops)
admin_survives_example = admin_survives slashed shop account_ops shop-Governed

abbrev erased : Db
erased = record {
  jobs = [];
  songs = [];
  users = ann ∷ [];
  sessions = [];
  cover_links = [];
  cover_uploads = [];
}

abbrev bob_files : List Text
bob_files = codes "/data/audio/s1.m4a" ∷ codes "/data/sources/up.wav" ∷ []

delete_user_example :
    ((paths : List Text)
      → delete_user slashed shop (codes "u1") ≡ (erased, ok paths)
      → Erased shop erased (codes "u1") × (paths ≡ user_files slashed (codes "u1") shop))
    × ((e : Error) → delete_user slashed shop (codes "u1") ≡ (erased, err e) → erased ≡ shop)
delete_user_example = delete_user_complete slashed shop erased (codes "u1")

-- What the files of the account are, and that its deletion succeeds.
delete_bob : delete_user slashed shop (codes "u1") ≡ (erased, ok bob_files)
unfolding delete_user delete_user_rows user_files guard_last_admin first select remove any_row
    count_rows text_eq
delete_bob = refl

abbrev bob_session : Session
bob_session = record {
  token_hash = token;
  user_id = codes "u1";
  username = codes "Bob";
  config_admin = false;
  is_admin = false;
  status = status_approved;
  created_at = 3;
  expires_at = 100;
}

get_session_example :
    (20 < bob_session.expires_at)
    × (bob_session.token_hash ≡ plain token)
    × (((u : User) × (get_user_by_id shop (codes "u1") ≡ some u)
          × (false ≡ text_eq u.role role_admin)
          × (status_approved ≡ u.status)
          × (codes "Bob" ≡ u.username))
        ⊎ ((get_user_by_id shop (codes "u1") ≡ none)
            × (◌≡◌ {A = Bool} false true)
            × (◌≡◌ {A = Bool} false true)))
unfolding get_session resolve first text_eq
get_session_example = get_session_live plain shop 20 token bob_session refl

abbrev ann_login : NewSession
ann_login = record {
  user_id = codes "a1";
  username = codes "Ann";
  config_admin = false;
  created_at = none;
  expires_at = some 90;
}

abbrev fresh_token : Text
fresh_token = codes "ffffffffffffffffffffffffffffffff"

abbrev logged_in : Db
logged_in = record shop {
  sessions = shop.sessions ++ row_of plain 10 fresh_token ann_login 90 ∷ [];
}

create_session_example :
    Opens plain 10 shop.users 20 90 fresh_token ann_login
      (get_session plain (record logged_in { users = shop.users }) 20 fresh_token)
unfolding create_session any_row text_eq
create_session_example =
    create_session-get_session plain shop logged_in 10 20 90 fresh_token fresh_token ann_login
      shop.users refl refl

abbrev linked : Db
linked = record shop {
  cover_links =
      shop.cover_links
      ++ record {
        token_hash = token;
        kind = cover_link_source;
        ref = codes "up.wav";
        created_at = 10;
        expires_at = 17;
      }
        ∷ [];
}

create_cover_link_example :
    ((cover_link_source ≡ cover_link_audio) ⊎ (cover_link_source ≡ cover_link_source))
    × (token ≡ token)
    × (cover_link plain linked 12 token
        ≡ (if ltb 12 17 then some (cover_link_source, codes "up.wav") else none))
unfolding create_cover_link any_row text_eq
create_cover_link_example =
    create_cover_link-cover_link plain shop linked 10 12 token cover_link_source (codes "up.wav")
      token (pos 7) refl (omega arith)
