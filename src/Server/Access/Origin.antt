-- ===== src/Server/Access/Origin.antt =====
-- internal/server/access.go, sameOriginWrite: what it takes for a request to come from this site.
use minmaxmusic3_web.Prelude.{
  ◌≡◌, refl, ◌≢◌, ◌⊎◌, inl, inr, true, false, Option, none, some, [], ◌∷◌, arith, Bool-cases, Text,
  codes, text_eq, text_eq_sound, text_eq_complete, is_empty, equal_fold,
}
use minmaxmusic3_web.Server.Http.{
  Request, Packages, Url, own_host, same_origin, same_origin_write, safe_method,
}
use minmaxmusic3_web.Server.Access.{Config, safe_method, same_origin_write}

module _ (pk : Packages) (r : Request) where
  -- A method that changes nothing.
  abbrev pub Reads : Type 0
  Reads = (r.method ≡ codes "GET") ⊎ (r.method ≡ codes "HEAD") ⊎ (r.method ≡ codes "OPTIONS")

  -- The origin is the host that the request is for, or that of the configured address, with its
  -- scheme.
  abbrev pub OwnOrigin : Config → Type 0
  OwnOrigin c =
      (u : Url) × (pk.parse_url (r.header (codes "Origin")) ≡ some u)
      × (is_empty u.host ≡ false)
      × ((equal_fold u.host r.host ≡ true)
          ⊎ ((own : Url) × (pk.parse_url c.public_url ≡ some own)
              × (is_empty c.public_url ≡ false)
              × (equal_fold u.host own.host ≡ true)
              × (u.scheme ≡ own.scheme)))

  -- The browser says that the request is of this site; or it says nothing of a site, and there is no
  -- origin or an own one.
  abbrev pub FromSite : Config → Type 0
  FromSite c =
      let site = r.header (codes "Sec-Fetch-Site") in
      (site ≡ codes "same-origin")
      ⊎ (site ≡ codes "none")
      ⊎ ((site ≢ codes "same-site")
          × (site ≢ codes "cross-site")
          × ((r.header (codes "Origin") ≡ []) ⊎ OwnOrigin c))

  pub safe_method-Reads : safe_method r ≡ true → Reads
  unfolding safe_method
  safe_method-Reads h = elim (Bool-cases (text_eq r.method (codes "GET"))) [
    | inl t ↦ inl (text_eq_sound r.method (codes "GET") t)
    | inr f ↦ elim (Bool-cases (text_eq r.method (codes "HEAD"))) [
      | inl t ↦ inr (inl (text_eq_sound r.method (codes "HEAD") t))
      | inr g ↦ inr (inr (text_eq_sound r.method (codes "OPTIONS") (ground arith)))
    ]
  ]

  configured-OwnOrigin :
      (c : Config) (u : Url) (o : Option Url)
      → pk.parse_url (r.header (codes "Origin")) ≡ some u
      → is_empty u.host ≡ false
      → is_empty c.public_url ≡ false
      → pk.parse_url c.public_url ≡ o
      → own_host pk c r u o ≡ true
      → OwnOrigin c
  configured-OwnOrigin c u none parsed host set own h = cc
  configured-OwnOrigin c u (some own) parsed host set found h = (
    u,
    parsed,
    host,
    inr (own, found, set, ground arith, text_eq_sound u.scheme own.scheme (ground arith)),
  )

  same_origin-OwnOrigin :
      (c : Config) (o : Option Url)
      → pk.parse_url (r.header (codes "Origin")) ≡ o
      → same_origin pk c r o ≡ true
      → OwnOrigin c
  same_origin-OwnOrigin c none parsed h = cc
  same_origin-OwnOrigin c (some u) parsed h = elim (Bool-cases (equal_fold u.host r.host)) [
    | inl t ↦ (u, parsed, ground arith, inl t)
    | inr f ↦
        configured-OwnOrigin c u (pk.parse_url c.public_url) parsed (ground arith) (ground arith)
          refl (ground arith)
  ]

  pub same_origin_write-FromSite : (c : Config) → same_origin_write pk c r ≡ true → FromSite c
  unfolding same_origin_write
  same_origin_write-FromSite c h =
      let site = r.header (codes "Sec-Fetch-Site") in
      elim (Bool-cases (text_eq site (codes "same-origin"))) [
        | inl t ↦ inl (text_eq_sound site (codes "same-origin") t)
        | inr f ↦ elim (Bool-cases (text_eq site (codes "none"))) [
          | inl t ↦ inr (inl (text_eq_sound site (codes "none") t))
          | inr g ↦ inr (
              inr (
                λ e. cc (text_eq_complete site (codes "same-site") e, (other f g).0),
                λ e. cc (text_eq_complete site (codes "cross-site") e, (other f g).1),
                origin f g (Bool-cases (is_empty (r.header (codes "Origin")))),
              ))
        ]
      ]
    where
      other :
          text_eq (r.header (codes "Sec-Fetch-Site")) (codes "same-origin") ≡ false
          → text_eq (r.header (codes "Sec-Fetch-Site")) (codes "none") ≡ false
          → (text_eq (r.header (codes "Sec-Fetch-Site")) (codes "same-site") ≡ false)
            × (text_eq (r.header (codes "Sec-Fetch-Site")) (codes "cross-site") ≡ false)
      other f g = (ground arith, ground arith)

      empty_text : (t : Text) → is_empty t ≡ true → t ≡ []
      empty_text [] e = refl
      empty_text (x ∷ t) e = cc

      origin :
          text_eq (r.header (codes "Sec-Fetch-Site")) (codes "same-origin") ≡ false
          → text_eq (r.header (codes "Sec-Fetch-Site")) (codes "none") ≡ false
          → (is_empty (r.header (codes "Origin")) ≡ true)
            ⊎ (is_empty (r.header (codes "Origin")) ≡ false)
          → (r.header (codes "Origin") ≡ []) ⊎ OwnOrigin c
      origin f g (inl e) = inl (empty_text (r.header (codes "Origin")) e)
      origin f g (inr n) =
          inr
            (same_origin-OwnOrigin c (pk.parse_url (r.header (codes "Origin"))) refl (ground arith))
