-- ===== src/Server/CoverJobs/Recording.antt =====
-- internal/server/cover.go, resolveCoverSource: which recording a cover is made of.
use minmaxmusic3_web.Server.CoverJobs.{of_song, of_upload, resolve_cover_source}
use minmaxmusic3_web.Store.Links.Expiry.{create_cover_link-jobs}
use minmaxmusic3_web.Prelude.{
  ℕ, ◌≡◌, refl, ◌∙◌, subst, ◌⊎◌, inl, inr, true, false, ◌||◌, not, Option, none, some, List, [],
  ◌∷◌, ◌++◌, arith, if◌then◌else◌, if_cases, Text, codes, trim_space, is_empty, pos, ltb_ℤ, leb_ℤ,
  trim_right_byte,
}
use minmaxmusic3_web.Store.Rows.{Db, Result, ok, err}
use minmaxmusic3_web.Store.Users.{cover_link_source, cover_link_audio}
use minmaxmusic3_web.Store.Links.{record_cover_upload, create_cover_link}
use minmaxmusic3_web.Config.{Config}
use minmaxmusic3_web.Server.Http.{Request, Packages}
use minmaxmusic3_web.Server.Access.{UserContext, caller}
use minmaxmusic3_web.Server.Covers.{
  Files, Upload, Tried, got, message, mint_cover_url, stage_upload, linked_url, stored_then,
  recorded, store_upload, max_upload_bytes, is_fetchable_url, cover_link_ttl,
}

got_inj : {A : Type 0} {x y : A} → got x ≡ got y → x ≡ y
got_inj h = cc

message-not-got : {A : Type 0} {t : Text} {x : A} → message t ≡ got x → ⊥
message-not-got h = cc

module _ (pk : Packages) (fs : Files) (c : Config) (d : Db) (now : ℕ) (id token name : Text)
    (random : ℕ) (uc : Option UserContext) (r : Request) (uploads : Option (List Upload)) where
  -- No job is touched, and an address is not empty.
  abbrev Links : Db × Tried Text → Type 0
  Links p = (p.0.jobs ≡ d.jobs) × ((t : Text) → p.1 ≡ got t → is_empty t ≡ false)

  link-not-empty : (b rest : Text) → is_empty b ≡ false → is_empty (b ++ rest) ≡ false
  link-not-empty [] rest h = cc
  link-not-empty (x ∷ b) rest h = refl

  linked_url-Links : (p : Db × Result Text) → p.0.jobs ≡ d.jobs → Links (linked_url pk fs c p)
  linked_url-Links (d', err e) same = (same, λ t h. absurd (message-not-got h))
  linked_url-Links (d', ok token) same = (
    same,
    λ t h.
        if_cases (λ (x : Tried Text). x ≡ got t → is_empty t ≡ false)
          (is_empty (trim_right_byte 47 c.public_url)) _ _ (λ e g. absurd (message-not-got g))
          (λ f g.
            subst (λ x. is_empty x ≡ false) (got_inj g)
              (link-not-empty (trim_right_byte 47 c.public_url ++ codes "/signed/") token
                (link-not-empty (trim_right_byte 47 c.public_url) (codes "/signed/") f)))
          h,
  )

  mint-Links :
      (o : Db) (kind ref : Text)
      → o.jobs ≡ d.jobs
      → Links (mint_cover_url pk fs c o now token kind ref)
  unfolding mint_cover_url
  mint-Links o kind ref same =
      linked_url-Links (create_cover_link pk.hash o now token kind ref (pos cover_link_ttl))
        (create_cover_link-jobs pk.hash o now token kind ref (pos cover_link_ttl) ∙ same)

  recorded-Links :
      (p : Db × Result (Unit {0})) (file : Text)
      → p.0.jobs ≡ d.jobs
      → Links (recorded pk fs c now token file p)
  recorded-Links (o, err e) file same = (same, λ t h. absurd (message-not-got h))
  recorded-Links (o, ok u) file same = mint-Links o cover_link_source file same

  record_cover_upload-jobs :
      (file user_id : Text) → (record_cover_upload d now file user_id).0.jobs ≡ d.jobs
  unfolding record_cover_upload
  record_cover_upload-jobs [] user_id = refl
  record_cover_upload-jobs (x ∷ file) user_id = refl

  stored-Links :
      (user_id : Text) (t : Tried Text) → Links (stored_then pk fs c d now token user_id t)
  stored-Links user_id (message text) = (refl, λ t h. absurd (message-not-got h))
  stored-Links user_id (got file) =
      recorded-Links (record_cover_upload d now file user_id) file
        (record_cover_upload-jobs file user_id)

  stage_upload-Links :
      (u : Upload) (user_id : Text) → Links (stage_upload pk fs c d now token name u user_id)
  unfolding stage_upload
  stage_upload-Links u user_id =
      if_cases Links (is_empty (trim_space c.public_url)) _ _
        (λ t. (refl, λ t h. absurd (message-not-got h)))
        (λ f. stored-Links user_id (store_upload pk fs c name u))

  abbrev pub pasted : Text
  pasted = trim_space (r.form (codes "source_url"))

  -- The address to fetch, and the song that the cover is filed under: a pasted web address and no
  -- song; else a fresh link to the first upload, and no song; else, where nothing is uploaded, a
  -- fresh link to the audio of `song_id`, and that song.
  abbrev pub Recording : (song_id address filed : Text) → Type 0
  Recording song_id address filed =
      ((is_empty pasted ≡ false)
        × (address ≡ pasted)
        × (is_fetchable_url pk fs c pasted ≡ true)
        × (filed ≡ []))
      ⊎ ((is_empty pasted ≡ true)
          × ((u : Upload) × (us : List Upload) × (uploads ≡ some (u ∷ us))
              × ((stage_upload pk fs c d now token name u (caller uc).user_id).1 ≡ got address)
              × (filed ≡ [])))
      ⊎ ((is_empty pasted ≡ true)
          × ((uploads ≡ none) ⊎ (uploads ≡ some []))
          × ((mint_cover_url pk fs c d now token cover_link_audio song_id).1 ≡ got address)
          × (filed ≡ song_id))

  -- The same of a source.
  abbrev pub Resolves : (song_id : Text) → Db × Tried (Text × Text) → Type 0
  Resolves song_id p =
      (p.0.jobs ≡ d.jobs)
      × ((s : Text × Text) → p.1 ≡ got s → (is_empty s.0 ≡ false) × Recording song_id s.0 s.1)

  of_song-Resolves :
      (own song_id : Text) (p : Db × Tried Text)
      → Links p
      → ((link : Text) → p.1 ≡ got link → Recording own link song_id)
      → Resolves own (of_song pk fs c d now id token name random uc r uploads song_id p)
  of_song-Resolves own song_id (o, message text) (same, some_text) recording =
      (same, λ s h. absurd (message-not-got h))
  of_song-Resolves own song_id (o, got link) (same, some_text) recording = (
    same,
    λ s h.
        subst (λ (x : Text × Text). (is_empty x.0 ≡ false) × Recording own x.0 x.1) (got_inj h)
          (some_text link refl, recording link refl),
  )

  from_song-Resolves :
      (song_id : Text)
      → is_empty pasted ≡ true
      → (uploads ≡ none) ⊎ (uploads ≡ some [])
      → Resolves song_id (
          if is_empty song_id
          then (d, message (codes "Upload a recording to make a cover."))
          else of_song pk fs c d now id token name random uc r uploads song_id
              (mint_cover_url pk fs c d now token cover_link_audio song_id))
  from_song-Resolves song_id unpasted bare =
      if_cases (Resolves song_id) (is_empty song_id) _ _
        (λ t. (refl, λ s h. absurd (message-not-got h)))
        (λ f.
          of_song-Resolves song_id song_id _ (mint-Links d cover_link_audio song_id refl)
            (λ link h. inr (inr (unpasted, bare, h, refl))))

  of_upload-Resolves :
      (song_id : Text) (o : Option (List Upload))
      → is_empty pasted ≡ true
      → uploads ≡ o
      → Resolves song_id (of_upload pk fs c d now id token name random uc r uploads song_id o)
  of_upload-Resolves song_id none unpasted bare = from_song-Resolves song_id unpasted (inl bare)
  of_upload-Resolves song_id (some []) unpasted bare =
      from_song-Resolves song_id unpasted (inr bare)
  of_upload-Resolves song_id (some (u ∷ us)) unpasted sent =
      if_cases (Resolves song_id) (leb_ℤ u.size (pos 0) || ltb_ℤ (pos max_upload_bytes) u.size) _ _
        (λ t. (refl, λ s h. absurd (message-not-got h)))
        (λ f.
          of_song-Resolves song_id [] _ (stage_upload-Links u (caller uc).user_id)
            (λ link h. inr (inl (unpasted, (u, us, sent, h, refl)))))

  pub resolve-Resolves :
      (song_id : Text)
      → Resolves song_id
          (resolve_cover_source pk fs c d now id token name random uc r uploads song_id)
  unfolding resolve_cover_source
  resolve-Resolves song_id =
      if_cases (Resolves song_id) (not (is_empty pasted)) _ _
        (λ t. (
          refl,
          λ s h.
              if_cases
                (λ (x : Tried (Text × Text)).
                  x ≡ got s → (is_empty s.0 ≡ false) × Recording song_id s.0 s.1)
                (is_fetchable_url pk fs c pasted) _ _
                (λ e g.
                  subst (λ (x : Text × Text). (is_empty x.0 ≡ false) × Recording song_id x.0 x.1)
                    (got_inj g) (ground arith, inl (ground arith, refl, e, refl)))
                (λ e g. absurd (message-not-got g)) h,
        ))
        (λ f. of_upload-Resolves song_id uploads (ground arith) refl)
