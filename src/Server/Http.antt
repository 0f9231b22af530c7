-- ===== src/Server/Http.antt =====
-- internal/server: what the handlers read of a request and write to its answer, and the pieces of
-- access.go, ratelimit.go and auth.go that only look at the request. Packages outside the
-- repository are the fields of `Packages`.
pub mod Next
use minmaxmusic3_web.Prelude.{
  ℕ, Bool, true, false, ◌&&◌, ◌||◌, not, Option, none, some, List, [], ◌∷◌, ◌++◌, ltb, ◌==◌,
  if◌then◌else◌, length, Text, codes, text_eq, trim_space, has_prefix, is_empty, contains,
  equal_fold,
}
use minmaxmusic3_web.Config.{Config}

-- net/url.URL.
pub record Url : Type 0 where
  pub scheme : Text
  pub host : Text
  pub opaque : Text
  pub has_user : Bool
  pub path : Text
  pub escaped_path : Text
  pub raw_query : Text

pub record Request : Type 0 where
  pub method : Text
  pub path : Text
  pub request_uri : Text
  pub host : Text
  pub remote_addr : Text
  pub tls : Bool
  -- Header.Get, URL.Query().Get, FormValue and PathValue.
  pub header : Text → Text
  pub query : Text → Text
  pub form_ok : Bool
  pub form : Text → Text
  pub path_id : Text
  -- The value of the session cookie, empty without one.
  pub cookie : Text

-- The functions of packages outside the repository.
pub record Packages : Type 0 where
  -- SHA-256 in hexadecimal, and the two halves of bcrypt.
  pub hash : Text → Text
  pub bcrypt_generate : Text → Option Text
  pub bcrypt_matches : (hash password : Text) → Bool
  -- url.Parse, path.Clean and url.QueryEscape.
  pub parse_url : Text → Option Url
  pub clean : Text → Text
  pub query_escape : Text → Text
  -- net.ParseIP with String, and the host of net.SplitHostPort.
  pub parse_ip : Text → Option Text
  pub split_host : Text → Option Text
  -- ServeMux.Handler: which of the registered patterns matches, if any.
  pub mux : (patterns : List Text) → Request → Option Text

pub data CookieChange : Type 0 where
  kept cleared : CookieChange
  set_to : (token : Text) → (expires : ℕ) → CookieChange

pub data Reply : Type 0 where
  json_error : (code : ℕ) → (error message : Text) → Reply
  -- An empty body with the HX-Redirect header, or without one if it is empty.
  hx_redirect : (code : ℕ) → (location : Text) → Reply
  hx_refresh : Reply
  -- http.Redirect with 303, http.Error and http.NotFound.
  see_other : (location : Text) → Reply
  plain_error : (code : ℕ) → (message : Text) → Reply
  not_found : Reply
  -- The same with the HX-Redirect header.
  not_found_to : (location : Text) → Reply
  login_page : (code : ℕ) → (notice username next : Text) → Reply
  register_page : (code : ℕ) → (notice username : Text) → Reply
  -- 200 with a text.
  plain : Text → Reply

pub record Response : Type 0 where
  pub reply : Reply
  pub cookie : CookieChange
  -- The comparisons at bcrypt's cost that the request made.
  pub compares : ℕ

abbrev pub answering : Reply → Response
answering reply = record { reply = reply; cookie = kept; compares = 0 }

abbrev pub method_get : Text
method_get = codes "GET"

unfoldable pub safe_method : Request → Bool
unfolding text_eq
safe_method r =
    text_eq r.method method_get
    || text_eq r.method (codes "HEAD")
    || text_eq r.method (codes "OPTIONS")

unfoldable pub wants_json : Request → Bool
unfolding has_prefix contains
wants_json r =
    has_prefix r.path (codes "/api/")
    || contains (r.header (codes "Accept")) (codes "application/json")
    || contains (r.header (codes "Content-Type")) (codes "application/json")

unfoldable pub is_htmx : Request → Bool
unfolding text_eq
is_htmx r = text_eq (r.header (codes "HX-Request")) (codes "true")

-- The refusal in the shape that the caller can use.
unfoldable pub deny : Request → (code : ℕ) → (error message redirect : Text) → Reply
unfolding wants_json is_htmx text_eq
deny r code error message redirect =
    if wants_json r
    then json_error code error message
    else if is_htmx r
    then hx_redirect code redirect
    else if not (is_empty redirect) && text_eq r.method method_get
    then see_other redirect
    else plain_error code message

unfoldable pub is_tls : Request → Bool
unfolding equal_fold
is_tls r = r.tls || equal_fold (r.header (codes "X-Forwarded-Proto")) (codes "https")

abbrev socket_ip : Request → Option Text → Text
socket_ip r none = r.remote_addr
socket_ip r (some host) = host

abbrev is_auth_page : Text → Bool
is_auth_page p =
    text_eq p (codes "/login") || text_eq p (codes "/register") || text_eq p (codes "/logout")

abbrev is_off_site : Url → Bool
is_off_site u =
    not (is_empty u.scheme) || not (is_empty u.host) || not (is_empty u.opaque) || u.has_user

-- What the path must not be, decoded.
abbrev is_bad_path : Text → Bool
is_bad_path p =
    not (has_prefix p (codes "/"))
    || has_prefix p (codes "//")
    || has_prefix p (codes "/\\")
    || contains p (codes "//")
    || contains p (codes "..")

abbrev is_bad_clean : Text → Bool
is_bad_clean p = not (has_prefix p (codes "/")) || has_prefix p (codes "//")

abbrev target_of : Url → Text
target_of u =
    if is_empty u.raw_query then u.escaped_path else u.escaped_path ++ codes "?" ++ u.raw_query

unfoldable pub has_control : Text → Bool
has_control [] = false
has_control (c ∷ s) = ltb c 32 || c == 127 || has_control s

module _ (pk : Packages) where
  abbrev header_ip : Request → Option Text → Text
  header_ip r none = socket_ip r (pk.split_host r.remote_addr)
  header_ip r (some ip) = ip

  -- The key that every rate limit counts under.
  unfoldable pub client_ip : Config → Request → Text
  unfolding trim_space
  client_ip c r =
      if is_empty c.client_ip_header
      then socket_ip r (pk.split_host r.remote_addr)
      else header_ip r (pk.parse_ip (trim_space (r.header c.client_ip_header)))

  abbrev pub own_host : Config → Request → Url → Option Url → Bool
  own_host c r u none = false
  own_host c r u (some own) = equal_fold u.host own.host && text_eq u.scheme own.scheme

  abbrev pub same_origin : Config → Request → Option Url → Bool
  same_origin c r none = false
  same_origin c r (some u) =
      not (is_empty u.host)
      && (equal_fold u.host r.host
          || (not (is_empty c.public_url) && own_host c r u (pk.parse_url c.public_url)))

  unfoldable pub same_origin_write : Config → Request → Bool
  unfolding text_eq equal_fold
  same_origin_write c r =
      let site = r.header (codes "Sec-Fetch-Site") in
      if text_eq site (codes "same-origin") || text_eq site (codes "none")
      then true
      else if text_eq site (codes "same-site") || text_eq site (codes "cross-site")
      then false
      else if is_empty (r.header (codes "Origin"))
      then true
      else same_origin c r (pk.parse_url (r.header (codes "Origin")))

  abbrev parsed_next : Option Url → Text
  parsed_next none = []
  parsed_next (some u) =
      if is_off_site u
        || is_bad_path u.path
        || is_bad_clean (pk.clean u.path)
        || is_auth_page u.path
      then []
      else target_of u

  -- A target for the redirect after the login; empty is none.
  unfoldable pub safe_next : Text → Text
  unfolding has_control has_prefix contains text_eq
  safe_next raw =
      if is_empty raw || ltb 512 (length raw)
      then []
      else if has_control raw
      then []
      else if not (has_prefix raw (codes "/"))
      then []
      else if has_prefix raw (codes "//") || has_prefix raw (codes "/\\")
      then []
      else parsed_next (pk.parse_url raw)

  -- url.Values.Encode of the two keys, which it sorts.
  abbrev pair : Text → Text → Text
  pair k v = k ++ codes "=" ++ pk.query_escape v

  abbrev encoded : (next notice : Text) → Text
  encoded next notice =
      if is_empty next
      then (if is_empty notice
          then codes "/login"
          else codes "/login?" ++ pair (codes "notice") notice)
      else if is_empty notice
      then codes "/login?" ++ pair (codes "next") next
      else codes "/login?" ++ pair (codes "next") next ++ codes "&" ++ pair (codes "notice") notice

  unfoldable pub login_url : Request → (notice : Text) → Text
  unfolding text_eq safe_next
  login_url r notice =
      encoded (if text_eq r.method method_get then safe_next r.request_uri else []) notice
