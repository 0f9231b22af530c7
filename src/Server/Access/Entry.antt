-- ===== src/Server/Access/Entry.antt =====
-- internal/server/access.go, protect and authenticate: who reaches a handler.
use minmaxmusic3_web.Prelude.{
  ℕ, ◌<◌, ◌≡◌, refl, sym, ◌∙◌, ◌⊎◌, inl, inr, Bool, true, false, ◌&&◌, not, Option, none, some,
  ◌++◌, arith, if◌then◌else◌, Bool-cases, Text, codes, text_eq, text_eq_sound, is_empty, any_row,
}
use minmaxmusic3_web.Store.Rows.{User, Db, status_approved, role_admin}
use minmaxmusic3_web.Store.Users.{get_user_by_id}
use minmaxmusic3_web.Store.Sessions.{Session, get_session}
use minmaxmusic3_web.Store.Sessions.Live.{get_session_live}
use minmaxmusic3_web.Server.Http.{Request, Packages, Response, same_origin_write, safe_method}
use minmaxmusic3_web.Server.Access.Origin.{
  Reads, FromSite, safe_method-Reads, same_origin_write-FromSite,
}
use minmaxmusic3_web.Server.Access.{
  UserContext, admitted, refused, context_of, of_session, authenticate, protect, AccessLevel, Gate,
  Config, levelled, level_of, access_public, access_admin, access_auth, public_patterns,
  admin_patterns, safe_method, same_origin_write, is_admin_only, is_public, level_for,
}

-- The account behind a session as the users table has it now, or the static administrator's.
abbrev pub Approved : Db → Session → Type 0
Approved d s =
    ((u : User) × (get_user_by_id d s.user_id ≡ some u)
      × (u.status ≡ status_approved)
      × (s.is_admin ≡ text_eq u.role role_admin))
    ⊎ ((get_user_by_id d s.user_id ≡ none) × (s.config_admin ≡ true) × (s.is_admin ≡ true))

-- What a signed-in caller has shown.
abbrev pub SignedIn : Packages → Db → (now : ℕ) → Request → UserContext → Type 0
SignedIn pk d now r uc =
    (s : Session) × (get_session pk.hash d now r.cookie ≡ some s)
    × (is_empty r.cookie ≡ false)
    × (now < s.expires_at)
    × Approved d s
    × (uc ≡ context_of d s)

admitted_inj : {A : Type 0} {x y : A} → admitted x ≡ admitted y → x ≡ y
admitted_inj h = cc

refused-not-admitted : {A : Type 0} {x : Response} {y : A} → refused x ≡ admitted y → ⊥
refused-not-admitted h = cc

levels_apart : (l : AccessLevel) → is_public l ≡ true → is_admin_only l ≡ true → ⊥
levels_apart access_public p a = cc
levels_apart access_admin p a = cc
levels_apart access_auth p a = cc

module _ (pk : Packages) (d : Db) (now : ℕ) (r : Request) where
  of_session-SignedIn :
      (o : Option Session) (uc : UserContext)
      → get_session pk.hash d now r.cookie ≡ o
      → is_empty r.cookie ≡ false
      → of_session pk d r o ≡ admitted uc
      → SignedIn pk d now r uc
  of_session-SignedIn none uc found shown e = absurd (refused-not-admitted e)
  of_session-SignedIn (some s) uc found shown e =
      elim (Bool-cases (text_eq s.status status_approved)) [
        | inl t ↦
            let (live, hashed, account) = get_session_live pk.hash d now r.cookie s found in
            (
              s,
              found,
              shown,
              live,
              approved (text_eq_sound s.status status_approved t) account,
              sym (admitted_inj (rw t at e)),
            )
        | inr f ↦ absurd (refused-not-admitted (rw f at e))
      ]
    where
      approved :
          s.status ≡ status_approved
          → ((u : User) × (get_user_by_id d s.user_id ≡ some u)
              × (s.is_admin ≡ text_eq u.role role_admin)
              × (s.status ≡ u.status)
              × (s.username ≡ u.username))
            ⊎ ((get_user_by_id d s.user_id ≡ none) × (s.config_admin ≡ true) × (s.is_admin ≡ true))
          → Approved d s
      approved here (inl (u, found_user, admin, status, name)) =
          inl (u, found_user, sym status ∙ here, admin)
      approved here (inr (gone, config, admin)) = inr (gone, config, admin)

  authenticate-SignedIn :
      (broken : Bool) (uc : UserContext)
      → authenticate pk broken d now r ≡ admitted uc
      → SignedIn pk d now r uc
  unfolding authenticate
  authenticate-SignedIn broken uc e = elim (Bool-cases (is_empty r.cookie)) [
    | inl t ↦ absurd (refused-not-admitted (rw t at e))
    | inr f ↦ elim (Bool-cases broken) [
      | inl t ↦ absurd (refused-not-admitted (rw (f, t) at e))
      | inr g ↦ of_session-SignedIn _ uc refl f (rw g at (rw f at e))
    ]
  ]

  levelled-SignedIn :
      (level : AccessLevel) (g : Gate UserContext) (u : Option UserContext)
      → ((uc : UserContext) → g ≡ admitted uc → SignedIn pk d now r uc)
      → levelled pk r level g ≡ admitted u
      → (uc : UserContext) × (u ≡ some uc)
        × SignedIn pk d now r uc
        × (is_admin_only level ≡ true → uc.is_admin ≡ true)
  levelled-SignedIn level (refused x) u shown e = absurd (refused-not-admitted e)
  levelled-SignedIn level (admitted uc) u shown e =
      elim (Bool-cases (is_admin_only level && not uc.is_admin)) [
        | inl t ↦ absurd (refused-not-admitted (rw t at e))
        | inr f ↦ (uc, sym (admitted_inj (rw f at e)), shown uc refl, λ only. ground arith)
      ]

  -- No caller on a public route, and elsewhere one who signed in and is up to the route.
  abbrev pub Routed : Option UserContext → Type 0
  Routed u =
      ((is_public (level_for pk r) ≡ true) × (u ≡ none))
      ⊎ ((uc : UserContext) × (u ≡ some uc)
          × SignedIn pk d now r uc
          × (is_admin_only (level_for pk r) ≡ true → uc.is_admin ≡ true))

  -- The registered pattern that the request matches.
  abbrev pub Matches : Text → Type 0
  Matches p = pk.mux (public_patterns ++ admin_patterns) r ≡ some p

  -- No caller on a public pattern, and on any other route one who signed in; on the two patterns of
  -- the administration that caller is an administrator.
  abbrev pub Admits : Config → Option UserContext → Type 0
  Admits c u =
      (Reads pk r ⊎ FromSite pk r c)
      × (((p : Text) × Matches p × (any_row (text_eq p) public_patterns ≡ true) × (u ≡ none))
          ⊎ ((uc : UserContext) × (u ≡ some uc) × SignedIn pk d now r uc))
      × ((Matches (codes "GET /admin") ⊎ Matches (codes "/admin/"))
          → (uc : UserContext) × (u ≡ some uc) × (uc.is_admin ≡ true))

  public_route :
      (o : Option Text)
      → is_public (level_of o) ≡ true
      → (p : Text) × (o ≡ some p) × (any_row (text_eq p) public_patterns ≡ true)
  public_route none h = cc
  public_route (some p) h = elim (Bool-cases (any_row (text_eq p) public_patterns)) [
    | inl t ↦ (p, refl, t)
    | inr f ↦ elim (Bool-cases (any_row (text_eq p) admin_patterns)) [
      | inl t ↦ cc (rw t at (rw f at h))
      | inr g ↦ cc (rw g at (rw f at h))
    ]
  ]

  admin_route :
      Matches (codes "GET /admin") ⊎ Matches (codes "/admin/")
      → is_admin_only (level_for pk r) ≡ true
  unfolding level_for any_row text_eq
  admin_route (inl e) = rw e refl
  admin_route (inr e) = rw e refl

  Routed-Admits :
      (c : Config) (u : Option UserContext) → Reads pk r ⊎ FromSite pk r c → Routed u → Admits c u
  unfolding level_for
  Routed-Admits c u from (inl (public, no_caller)) =
      let (p, found, listed) = public_route (pk.mux (public_patterns ++ admin_patterns) r) public in
      (
        from,
        inl (p, found, listed, no_caller),
        λ m. absurd (levels_apart (level_for pk r) public (admin_route m)),
      )
  Routed-Admits c u from (inr (uc, same, signed, admin)) =
      (from, inr (uc, same, signed), λ m. (uc, same, admin (admin_route m)))

  -- A request reaches its handler only if it is a GET, HEAD or OPTIONS or comes from this site, by its
  -- Sec-Fetch-Site header or, where that is silent, for want of an Origin or with the host of the
  -- request or of the configured address as its Origin. Then it is either on a route that is listed
  -- as public, without a caller, or with a session cookie that resolves to a session that has not
  -- lapsed and whose account is approved as the users table stands, or to the static
  -- administrator's. On GET /admin and under /admin/ that caller is an administrator.
  pub protect-SignedIn :
      (c : Config) (broken : Bool) (u : Option UserContext)
      → protect pk c broken d now r ≡ admitted u
      → Admits c u
  unfolding protect
  protect-SignedIn c broken u e =
      elim (Bool-cases (not (safe_method r) && not (same_origin_write pk c r))) [
        | inl t ↦ absurd (refused-not-admitted (rw t at e))
        | inr f ↦ Routed-Admits c u (from f (Bool-cases (safe_method r))) (routed (rw f at e))
      ]
    where
      from :
          (not (safe_method r) && not (same_origin_write pk c r)) ≡ false
          → (safe_method r ≡ true) ⊎ (safe_method r ≡ false)
          → Reads pk r ⊎ FromSite pk r c
      from f (inl safe) = inl (safe_method-Reads pk r safe)
      from f (inr write) = inr (same_origin_write-FromSite pk r c (ground arith))

      routed :
          (if is_public (level_for pk r)
              then admitted none
              else levelled pk r (level_for pk r) (authenticate pk broken d now r))
            ≡ admitted u
          → Routed u
      routed w = elim (Bool-cases (is_public (level_for pk r))) [
        | inl t ↦ inl (t, sym (admitted_inj (rw t at w)))
        | inr f ↦ inr (
            levelled-SignedIn (level_for pk r) (authenticate pk broken d now r) u
              (λ uc. authenticate-SignedIn broken uc) (rw f at w))
      ]
