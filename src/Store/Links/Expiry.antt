-- ===== src/Store/Links/Expiry.antt =====
-- internal/store/store.go, the cover links: how long a link works, and what the sweeps leave.
use minmaxmusic3_web.Prelude.{
  ℕ, ◌+◌, ◌≤◌, ◌≡◌, refl, sym, ◌⊎◌, inl, inr, false, none, some, [], ◌∷◌, ◌++◌, map, arith, ltb,
  ◌==◌, if◌then◌else◌, Bool-cases, length, first-append, any_row-false_count, first-remove_apart,
  Text, text_eq, text_eq_sound, text_eq_complete, is_empty, select, first, remove, count_rows,
  any_row, remove_none, count-remove_self, select_none, length-map-select, ℤ, pos, pos_part, ◌≤ℤ◌,
}
use minmaxmusic3_web.Store.Rows.{CoverLink, CoverUpload, Db, ok}
use minmaxmusic3_web.Store.Users.{cover_link_audio, cover_link_source}
use minmaxmusic3_web.Store.Sessions.{min_token_len}
use minmaxmusic3_web.Store.Links.{
  lapsed_link, link_of, insert_link, create_cover_link, live_link, cover_link,
  purge_expired_cover_links, stale, purge_stale_cover_uploads,
}

module _ (hash : Text → Text) where
  insert-ok :
      (d d' : Db) (now ttl : ℕ) (token kind ref t : Text)
      → insert_link hash d now token kind ref ttl ≡ (d', ok t)
      → (any_row (λ (r : CoverLink). text_eq r.token_hash (hash token)) d.cover_links ≡ false)
        × (t ≡ token)
        × (d'
            ≡ record d { cover_links = d.cover_links ++ link_of hash now token kind ref ttl ∷ [] })
  unfolding insert_link
  insert-ok d d' now ttl token kind ref t e =
      elim (Bool-cases
        (any_row (λ (r : CoverLink). text_eq r.token_hash (hash token)) d.cover_links)) [
          | inl t ↦ absurd (ground arith)
          | inr free ↦ (free, ground arith, ground arith)
        ]

  create_cover_link-ok :
      (d d' : Db) (now : ℕ) (token kind ref t : Text) (ttl : ℤ)
      → create_cover_link hash d now token kind ref ttl ≡ (d', ok t)
      → ((kind ≡ cover_link_audio) ⊎ (kind ≡ cover_link_source))
        × (is_empty ref ≡ false)
        × (pos 1 ≤ℤ ttl)
        × (insert_link hash d now token kind ref (pos_part ttl) ≡ (d', ok t))
  unfolding create_cover_link
  create_cover_link-ok d d' now token kind ref t ttl e = (
    ground (arith, text_eq_sound kind cover_link_audio, text_eq_sound kind cover_link_source),
    ground arith,
    ground arith,
    ground arith,
  )

  link-last :
      (d : Db) (later : ℕ) (token : Text) (r : CoverLink)
      → r.token_hash ≡ hash token
      → min_token_len ≤ length token
      → any_row (λ (x : CoverLink). text_eq x.token_hash (hash token)) d.cover_links ≡ false
      → cover_link hash (record d { cover_links = d.cover_links ++ r ∷ [] }) later token
        ≡ (if ltb later r.expires_at then some (r.kind, r.ref) else none)
  unfolding cover_link first
  link-last d later token r same long free =
      rw
        (first-append (live_link hash later token) d.cover_links (r ∷ []) (
          any_row-false_count (λ (x : CoverLink). text_eq x.token_hash (hash token))
            (live_link hash later token) d.cover_links (λ x l. ground arith) free))
        (ground (arith, text_eq_complete r.token_hash (hash token) same))

  -- A link that was minted names a song's audio or an upload, answers the token that it was minted
  -- with, and resolves until its time to live is over to what it was minted for, then to nothing.
  pub create_cover_link-cover_link :
      (d d' : Db) (now later : ℕ) (token kind ref t : Text) (ttl : ℤ)
      → create_cover_link hash d now token kind ref ttl ≡ (d', ok t)
      → min_token_len ≤ length token
      → ((kind ≡ cover_link_audio) ⊎ (kind ≡ cover_link_source))
        × (t ≡ token)
        × (cover_link hash d' later token
            ≡ (if ltb later (now + pos_part ttl) then some (kind, ref) else none))
  create_cover_link-cover_link d d' now later token kind ref t ttl e long =
      let (kinds, named, positive, inserted) =
        create_cover_link-ok d d' now token kind ref t ttl e in
      let (free, same, written) = insert-ok d d' now (pos_part ttl) token kind ref t inserted in
      (
        kinds,
        same,
        rw written (
            link-last d later token (link_of hash now token kind ref (pos_part ttl)) refl long
              free),
      )

  -- The sweep of lapsed links is invisible: from then on every token resolves as it did before.
  pub purge_expired-cover_link :
      (d : Db) (now later : ℕ) (token : Text)
      → now ≤ later
      → cover_link hash (purge_expired_cover_links d now).0 later token
        ≡ cover_link hash d later token
  unfolding cover_link purge_expired_cover_links
  purge_expired-cover_link d now later token h = rw (
      first-remove_apart (lapsed_link now) (live_link hash later token) d.cover_links
        (λ r live. ground arith))

abbrev pub name_of : CoverUpload → Text
name_of r = r.name

-- The sweep of staged recordings answers the names of the stale rows, deletes these rows and no
-- other, and run again at the same time finds nothing.
pub purge_stale_exact :
    (d : Db) (now max_age : ℕ)
    → let (d', names) = purge_stale_cover_uploads d now max_age in
      (names ≡ map name_of (select (stale now max_age) d.cover_uploads))
      × (d'.cover_uploads ≡ remove (stale now max_age) d.cover_uploads)
      × (purge_stale_cover_uploads d' now max_age ≡ (d', []))
unfolding purge_stale_cover_uploads
purge_stale_exact d now max_age =
    let old = stale now max_age in
    let counted = length-map-select name_of old d.cover_uploads in
    let swept = length-map-select name_of old (remove old d.cover_uploads) in
    let clean = count-remove_self old d.cover_uploads in
    elim (Bool-cases (count_rows old d.cover_uploads == 0)) [
      | inl zero_rows ↦
          let none_old : count_rows old d.cover_uploads ≡ 0 = ground arith in
          rw counted (
            rw zero_rows (
              rw (select_none old d.cover_uploads none_old) refl,
              sym (remove_none old d.cover_uploads none_old),
              rw (counted, zero_rows) refl,
            ))
      | inr some_rows ↦ rw counted (rw some_rows (refl, refl, rw (swept, clean) refl))
    ]

pub create_cover_link-jobs :
    (hash : Text → Text) (d : Db) (now : ℕ) (token kind ref : Text) (ttl : ℤ)
    → (create_cover_link hash d now token kind ref ttl).0.jobs ≡ d.jobs
unfolding create_cover_link insert_link
create_cover_link-jobs hash d now token kind ref ttl = ground arith
