-- ===== src/Server/Access.antt =====
-- internal/server/access.go: what a route demands, who the caller is, and what the whole request may
-- touch. `broken` says that the query of the session fails.
pub mod Origin
pub mod Entry
use minmaxmusic3_web.Prelude.{
  ℕ, Bool, true, false, ◌&&◌, ◌||◌, not, Option, none, some, List, [], ◌∷◌, ◌++◌, if◌then◌else◌,
  Text, codes, text_eq, is_empty, any_row,
}
use minmaxmusic3_web.Store.Rows.{
  Song, Db, status_approved, status_disabled, Access, user_access, admin_access, zero_access,
}
use minmaxmusic3_web.Config.{Config}
use minmaxmusic3_web.Store.Users.{count_pending_users}
use minmaxmusic3_web.Store.Sessions.{Session, get_session}
use minmaxmusic3_web.Store.Songs.{song, public_song}
use minmaxmusic3_web.Server.Http.{
  Request, Packages, Response, CookieChange, kept, cleared, deny, safe_method, same_origin_write,
  login_url, answering,
}

pub data AccessLevel : Type 0 where
  access_auth access_public access_admin : AccessLevel

abbrev pub public_patterns : List Text
public_patterns =
    codes "GET /healthz"
    ∷ codes "GET /login"
    ∷ codes "POST /login"
    ∷ codes "GET /register"
    ∷ codes "POST /register"
    ∷ codes "POST /logout"
    ∷ codes "GET /static/"
    ∷ codes "GET /favicon.ico"
    ∷ codes "GET /signed/{token}"
    ∷ []

abbrev pub admin_patterns : List Text
admin_patterns = codes "GET /admin" ∷ codes "/admin/" ∷ []

-- The handler that newClassifier registered for the pattern that matches.
abbrev pub level_of : Option Text → AccessLevel
level_of none = access_auth
level_of (some p) =
    if any_row (text_eq p) public_patterns
    then access_public
    else if any_row (text_eq p) admin_patterns
    then access_admin
    else access_auth

unfoldable pub level_for : Packages → Request → AccessLevel
level_for pk r = level_of (pk.mux (public_patterns ++ admin_patterns) r)

pub record UserContext : Type 0 where
  pub user_id : Text
  pub username : Text
  pub is_admin : Bool
  pub config_admin : Bool
  pub status : Text
  pub pending_count : ℕ

-- A request that goes on to its handler, or the refusal that was written.
pub data Gate (A : Type 0) : Type 0 where
  admitted : A → Gate A
  refused : Response → Gate A

abbrev pub notice_key_sign_in : Text
notice_key_sign_in = codes "signin"

abbrev pub notice_key_pending : Text
notice_key_pending = codes "pending"

abbrev pub notice_key_disabled : Text
notice_key_disabled = codes "disabled"

abbrev pub is_public : AccessLevel → Bool
is_public access_public = true
is_public _ = false

abbrev pub is_admin_only : AccessLevel → Bool
is_admin_only access_admin = true
is_admin_only _ = false

abbrev pub context_of : Db → Session → UserContext
context_of d s = record {
  user_id = s.user_id;
  username = s.username;
  is_admin = s.is_admin;
  config_admin = s.config_admin;
  status = s.status;
  pending_count = if s.is_admin then count_pending_users d else 0;
}

abbrev not_approved_notice : Text → Text
not_approved_notice status =
    if text_eq status status_disabled then notice_key_disabled else notice_key_pending

module _ (pk : Packages) where
  abbrev deny_sign_in : Request → CookieChange → Response
  deny_sign_in r cookie = record {
    reply =
        deny r 401 (codes "unauthenticated") (codes "Sign in to continue.")
          (login_url pk r notice_key_sign_in);
    cookie = cookie;
    compares = 0;
  }

  abbrev approved_or : Db → Request → Session → Gate UserContext
  approved_or d r s =
      if not (text_eq s.status status_approved)
      then refused (
          answering (
            deny r 403 (codes "account-not-approved") (codes "Your account is not approved.")
              (login_url pk r (not_approved_notice s.status))))
      else admitted (context_of d s)

  abbrev of_session : Db → Request → Option Session → Gate UserContext
  of_session d r none = refused (deny_sign_in r cleared)
  of_session d r (some s) = approved_or d r s

  unfoldable pub authenticate : (broken : Bool) → Db → (now : ℕ) → Request → Gate UserContext
  unfolding text_eq
  authenticate broken d now r =
      if is_empty r.cookie
      then refused (deny_sign_in r kept)
      else if broken
      then refused
          (answering (deny r 500 (codes "internal") (codes "Could not verify your session.") []))
      else of_session d r (get_session pk.hash d now r.cookie)

  abbrev pub levelled : Request → AccessLevel → Gate UserContext → Gate (Option UserContext)
  levelled r level (refused x) = refused x
  levelled r level (admitted uc) =
      if is_admin_only level && not uc.is_admin
      then refused (
          answering (deny r 403 (codes "forbidden") (codes "Administrator access is required.") []))
      else admitted (some uc)

  -- Before every handler; the caller is none on a public route.
  unfoldable pub protect :
      Config → (broken : Bool) → Db → (now : ℕ) → Request → Gate (Option UserContext)
  unfolding safe_method same_origin_write authenticate level_for
  protect c broken d now r =
      if not (safe_method r) && not (same_origin_write pk c r)
      then refused (
          answering (
            deny r 403 (codes "cross-origin") (codes "This request did not come from this site.")
              []))
      else if is_public (level_for pk r)
      then admitted none
      else levelled r (level_for pk r) (authenticate broken d now r)

-- The ownership scope of the request.
unfoldable pub caller : Option UserContext → Access
unfolding user_access admin_access
caller none = zero_access
caller (some uc) = if uc.is_admin then admin_access uc.user_id else user_access uc.user_id

unfoldable pub owns : Option UserContext → Song → Bool
unfolding caller text_eq
owns uc g =
    let a = caller uc in a.admin || (not (is_empty a.user_id) && text_eq a.user_id g.user_id)

abbrev or_public : Db → Text → Option Song → Option Song
or_public d id (some g) = some g
or_public d id none = public_song d id

unfoldable pub readable_song : Db → Option UserContext → (id : Text) → Option Song
unfolding caller
readable_song d uc id = or_public d id (song d id (caller uc))
