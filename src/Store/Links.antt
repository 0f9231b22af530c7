-- ===== src/Store/Links.antt =====
-- internal/store/store.go, the cover_links and cover_uploads tables. `hash` is hashToken; the
-- random bytes of NewSessionToken are an argument, `token`.
pub mod Expiry
use minmaxmusic3_web.Prelude.{
  ℕ, ◌+◌, Bool, ◌&&◌, not, Option, none, some, List, [], ◌∷◌, ◌++◌, map, length, Text, text_eq,
  is_empty, if◌then◌else◌, ltb, leb, ◌==◌, select, first, remove, count_rows, any_row, sort_by, ℤ,
  pos, pos_part, leb_ℤ,
}
use minmaxmusic3_web.Store.Rows.{
  CoverLink, CoverUpload, Db, owner, err_constraint, err_unknown_kind, err_needs_ref, err_needs_ttl,
  err_needs_name, Result, ok, err,
}
use minmaxmusic3_web.Store.Users.{cover_link_audio, cover_link_source}
use minmaxmusic3_web.Store.Sessions.{min_token_len}

abbrev pub lapsed_link : ℕ → CoverLink → Bool
lapsed_link now r = leb r.expires_at now

abbrev target : Option CoverLink → Option (Text × Text)
target none = none
target (some l) = some (l.kind, l.ref)

module _ (hash : Text → Text) where
  -- The row of a new link.
  abbrev pub link_of : (now : ℕ) → (token kind ref : Text) → (ttl : ℕ) → CoverLink
  link_of now token kind ref ttl = record {
    token_hash = hash token;
    kind = kind;
    ref = ref;
    created_at = now;
    expires_at = now + ttl;
  }

  insert_link : Db → ℕ → Text → Text → Text → ℕ → Db × Result Text
  insert_link d now token kind ref ttl =
      if any_row (λ r. text_eq r.token_hash (hash token)) d.cover_links
      then (d, err err_constraint)
      else (
        record d { cover_links = d.cover_links ++ link_of now token kind ref ttl ∷ [] },
        ok token,
      )

  unfoldable pub create_cover_link :
      Db → (now : ℕ) → (token kind ref : Text) → (ttl : ℤ) → Db × Result Text
  unfolding insert_link
  create_cover_link d now token kind ref ttl =
      if not (text_eq kind cover_link_audio) && not (text_eq kind cover_link_source)
      then (d, err err_unknown_kind)
      else if is_empty ref
      then (d, err err_needs_ref)
      else if leb_ℤ ttl (pos 0)
      then (d, err err_needs_ttl)
      else insert_link d now token kind ref (pos_part ttl)

  -- token_hash = ? AND expires_at > ?
  abbrev pub live_link : ℕ → Text → CoverLink → Bool
  live_link now token r = text_eq r.token_hash (hash token) && ltb now r.expires_at

  -- Two empty strings are none.
  unfoldable pub cover_link : Db → (now : ℕ) → (token : Text) → Option (Text × Text)
  cover_link d now token =
      if ltb (length token) min_token_len
      then none
      else target (first (live_link now token) d.cover_links)

unfoldable pub purge_expired_cover_links : Db → (now : ℕ) → Db × ℕ
purge_expired_cover_links d now = (
  record d { cover_links = remove (lapsed_link now) d.cover_links },
  count_rows (lapsed_link now) d.cover_links,
)

unfoldable pub purge_cover_links_for : Db → (kind ref : Text) → Db
purge_cover_links_for d kind ref = record d {
  cover_links = remove (λ r. text_eq r.kind kind && text_eq r.ref ref) d.cover_links;
}

-- INSERT OR REPLACE on the primary key name.
unfoldable pub record_cover_upload : Db → (now : ℕ) → (name user_id : Text) → Db × Result (Unit {0})
record_cover_upload d now name user_id = if is_empty name then (d, err err_needs_name) else (
  record d {
    cover_uploads =
        remove (λ r. text_eq r.name name) d.cover_uploads
        ++ record { name = name; user_id = owner user_id; created_at = now } ∷ [];
  },
  ok tt,
)

unfoldable pub cover_uploads_by_user : Db → (user_id : Text) → List Text
cover_uploads_by_user d user_id =
    map (λ (r : CoverUpload). r.name)
      (sort_by (λ (a b : CoverUpload). leb a.created_at b.created_at)
        (select (λ r. text_eq r.user_id user_id) d.cover_uploads))

-- created_at <= now - max_age
abbrev pub stale : ℕ → ℕ → CoverUpload → Bool
stale now max_age r = leb (r.created_at + max_age) now

unfoldable pub purge_stale_cover_uploads : Db → (now max_age : ℕ) → Db × List Text
purge_stale_cover_uploads d now max_age =
    let names = map (λ (r : CoverUpload). r.name) (select (stale now max_age) d.cover_uploads) in
    if length names == 0
    then (d, [])
    else (record d { cover_uploads = remove (stale now max_age) d.cover_uploads }, names)
