-- ===== src/Server/Auth/Outcomes.antt =====
-- internal/server/auth.go, handleLogin: what each outcome of a sign-in tells, and to whom.
use minmaxmusic3_web.Prelude.{
  ℕ, ◌+◌, ◌≡◌, refl, sym, ap, ◌∙◌, ◌⊎◌, inl, inr, Bool, true, false, ◌&&◌, not, Option, none, some,
  arith, if◌then◌else◌, Bool-cases, Text, codes, text_eq, text_eq_sound, trim_space,
}
use minmaxmusic3_web.Store.Rows.{User, Db}
use minmaxmusic3_web.Config.{Config, admin_login_enabled}
use minmaxmusic3_web.Store.Users.{get_user_by_username}
use minmaxmusic3_web.Server.Http.{Request, Packages}
use minmaxmusic3_web.Server.Auth.{
  login, login_failed, unusable, next_of, of_account, config_admin_user_id, start_session, Result,
  ok, Response, status_approved, started, set_to, err, session_ttl, Reply, kept, by_status,
  status_pending, of_admin, answering, render_login,
}

abbrev IfFalse : (b x y : Bool) → Type 0
IfFalse b x y = (b ≡ true → x ≡ false) × (b ≡ false → y ≡ false)

either :
    (bad b x y : Bool) → (not bad && (if b then x else y)) ≡ false → bad ≡ false → IfFalse b x y
either bad true x y h f = (λ t. ground arith, λ w. cc)
either bad false x y h f = (λ w. cc, λ t. ground arith)

set_inj : {t u : Text} {a b : ℕ} → set_to t a ≡ set_to u b → (t ≡ u) × (a ≡ b)
set_inj h = (cc, cc)

kept_not : {t : Text} {a : ℕ} → kept ≡ set_to t a → ⊥
kept_not h = cc

module _ (pk : Packages) (c : Config) (d : Db) (now : ℕ) (token : Text) (r : Request) where
  abbrev pub username : Text
  username = trim_space (r.form (codes "username"))

  abbrev pub password : Text
  password = r.form (codes "password")

  abbrev pub is_admin_attempt : Bool
  is_admin_attempt = admin_login_enabled c && text_eq username c.admin_user

  abbrev account_matches : Option User → Bool
  account_matches none = false
  account_matches (some u) = pk.bcrypt_matches u.password_hash password

  -- Whether the caller holds the password of the name.
  abbrev pub verified : Bool
  verified =
      not (unusable username password)
      && (if is_admin_attempt
          then text_eq password c.admin_password
          else account_matches (get_user_by_username d username))

  of_account-failed :
      (o : Option User) (next : Text)
      → account_matches o ≡ false
      → of_account pk d now token r username password next o ≡ (d, login_failed pk username next)
  of_account-failed none next h = refl
  of_account-failed (some u) next h = rw h refl

  -- Where the form is read and the lookup works, a caller without the password of an account gets one
  -- and the same answer, after exactly one comparison, and changes nothing: it depends on the request
  -- alone, not on the accounts, so it tells neither which names exist nor what their status is.
  pub login-unverified :
      r.form_ok ≡ true
      → verified ≡ false
      → login pk c false d now token r ≡ (d, login_failed pk username (next_of pk r))
  unfolding login
  login-unverified read h = rw read (elim (Bool-cases (unusable username password)) [
    | inl t ↦ rw t refl
    | inr f ↦ rw f (elim (Bool-cases is_admin_attempt) [
      | inl a ↦ rw a (rw (wrong_admin f a) refl)
      | inr b ↦
          rw b (of_account-failed (get_user_by_username d username) (next_of pk r) (wrong_user f b))
    ])
  ])
    where
      parts :
          unusable username password ≡ false
          → IfFalse is_admin_attempt
              (text_eq password c.admin_password)
              (account_matches (get_user_by_username d username))
      parts f =
          either (unusable username password) is_admin_attempt (text_eq password c.admin_password)
            (account_matches (get_user_by_username d username)) h f

      wrong_admin :
          unusable username password ≡ false
          → is_admin_attempt ≡ true
          → text_eq password c.admin_password ≡ false
      wrong_admin f a = (parts f).0 a

      wrong_user :
          unusable username password ≡ false
          → is_admin_attempt ≡ false
          → account_matches (get_user_by_username d username) ≡ false
      wrong_user f b = (parts f).1 b

  -- Who a session is started for.
  abbrev pub Entitled : (user_id name : Text) → (config_admin : Bool) → Type 0
  Entitled user_id name config_admin =
      ((config_admin ≡ true) × (is_admin_attempt ≡ true) × (user_id ≡ config_admin_user_id))
      ⊎ ((u : User) × (get_user_by_username d username ≡ some u)
          × (u.status ≡ status_approved)
          × (user_id ≡ u.id)
          × (config_admin ≡ false))

  abbrev pub Starts : Db → (sent : Text) → (expires : ℕ) → Type 0
  Starts d' sent expires =
      (user_id : Text) × (name : Text) × (config_admin : Bool) × (h : Text) × (start_session pk d
          now token r user_id name config_admin
        ≡ (d', ok h))
      × (sent ≡ token)
      × (expires ≡ now + session_ttl)
      × Entitled user_id name config_admin

  started-Starts :
      (user_id name next : Text) (config_admin : Bool) (o d' : Db) (res : Result Text)
      (x : Response) (sent : Text) (expires : ℕ)
      → Entitled user_id name config_admin
      → start_session pk d now token r user_id name config_admin ≡ (o, res)
      → started pk now token username next (o, res) ≡ (d', x)
      → x.cookie ≡ set_to sent expires
      → Starts d' sent expires
  started-Starts user_id name next config_admin o d' (ok h) x sent expires who begun e set =
      let (same, until) = set_inj (ap (λ (p : Db × Response). p.1.cookie) e ∙ set) in
      (
        user_id,
        name,
        config_admin,
        h,
        begun ∙ ap (λ y. (y, ok h)) (ap (λ (p : Db × Response). p.0) e),
        sym same,
        sym until,
        who,
      )
  started-Starts user_id name next config_admin o d' (err z) x sent expires who begun e set =
      absurd (kept_not (ap (λ (p : Db × Response). p.1.cookie) e ∙ set))

  failed-Starts :
      (d' : Db) (x : Response) (sent : Text) (expires : ℕ) (reply : Reply) (n : ℕ)
      → Path (Db × Response) (d, record { reply = reply; cookie = kept; compares = n }) (d', x)
      → x.cookie ≡ set_to sent expires
      → Starts d' sent expires
  failed-Starts d' x sent expires reply n e set =
      absurd (kept_not (ap (λ (p : Db × Response). p.1.cookie) e ∙ set))

  by_status-Starts :
      (u : User) (next : Text) (d' : Db) (x : Response) (sent : Text) (expires : ℕ)
      → get_user_by_username d username ≡ some u
      → by_status pk d now token r username next u ≡ (d', x)
      → x.cookie ≡ set_to sent expires
      → Starts d' sent expires
  by_status-Starts u next d' x sent expires found e set =
      elim (Bool-cases (text_eq u.status status_approved)) [
        | inl t ↦
            let begun = start_session pk d now token r u.id u.username false in
            started-Starts u.id u.username next false begun.0 d' begun.1 x sent expires
              (inr (u, found, text_eq_sound u.status status_approved t, refl, refl)) refl
              (rw t at e) set
        | inr f ↦ elim (Bool-cases (text_eq u.status status_pending)) [
          | inl p ↦ failed-Starts d' x sent expires _ _ (rw p at (rw f at e)) set
          | inr q ↦ failed-Starts d' x sent expires _ _ (rw q at (rw f at e)) set
        ]
      ]

  of_account-Starts :
      (o : Option User) (next : Text) (d' : Db) (x : Response) (sent : Text) (expires : ℕ)
      → get_user_by_username d username ≡ o
      → of_account pk d now token r username password next o ≡ (d', x)
      → x.cookie ≡ set_to sent expires
      → (account_matches o ≡ true) × Starts d' sent expires
  of_account-Starts none next d' x sent expires found e set =
      absurd (kept_not (ap (λ (p : Db × Response). p.1.cookie) e ∙ set))
  of_account-Starts (some u) next d' x sent expires found e set =
      elim (Bool-cases (pk.bcrypt_matches u.password_hash password)) [
        | inl t ↦ (t, by_status-Starts u next d' x sent expires found (rw t at e) set)
        | inr f ↦ absurd (kept_not (ap (λ (p : Db × Response). p.1.cookie) (rw f at e) ∙ set))
      ]

  of_admin-Starts :
      (next : Text) (d' : Db) (x : Response) (sent : Text) (expires : ℕ)
      → is_admin_attempt ≡ true
      → of_admin pk c d now token r username password next ≡ (d', x)
      → x.cookie ≡ set_to sent expires
      → (text_eq password c.admin_password ≡ true) × Starts d' sent expires
  of_admin-Starts next d' x sent expires attempt e set =
      elim (Bool-cases (text_eq password c.admin_password)) [
        | inl t ↦
            let begun = start_session pk d now token r config_admin_user_id username true in
            (
              t,
              started-Starts config_admin_user_id username next true begun.0 d' begun.1 x sent
                  expires (inl (refl, attempt, refl)) refl (rw t at e) set,
            )
        | inr f ↦ absurd (kept_not (ap (λ (p : Db × Response). p.1.cookie) (rw f at e) ∙ set))
      ]

  -- A sign-in that hands out a cookie has verified the password of the name that was given, of the
  -- static administrator's credential if the name is theirs, and of an account that is approved
  -- otherwise; it starts a session for that account under the new token.
  pub login-Starts :
      (broken : Bool) (d' : Db) (x : Response) (sent : Text) (expires : ℕ)
      → login pk c broken d now token r ≡ (d', x)
      → x.cookie ≡ set_to sent expires
      → (verified ≡ true) × Starts d' sent expires
  unfolding login
  login-Starts broken d' x sent expires e set = elim (Bool-cases r.form_ok) [
    | inr unread ↦ absurd (kept_not (ap (λ (p : Db × Response). p.1.cookie) (rw unread at e) ∙ set))
    | inl read ↦ elim (Bool-cases (unusable username password)) [
      | inl t ↦
          absurd (kept_not (ap (λ (p : Db × Response). p.1.cookie) (rw t at (rw read at e)) ∙ set))
      | inr f ↦ usable f (rw f at (rw read at e))
    ]
  ]
    where
      usable :
          unusable username password ≡ false
          → (if is_admin_attempt
              then of_admin pk c d now token r username password (next_of pk r)
              else if broken
              then (
                d,
                answering (
                    render_login pk 500
                      (codes "Could not sign you in — try again.")
                      username
                      (next_of pk r)),
              )
              else of_account pk d now token r username password
                  (next_of pk r)
                  (get_user_by_username d username))
            ≡ (d', x)
          → (verified ≡ true) × Starts d' sent expires
      usable f w = elim (Bool-cases is_admin_attempt) [
        | inl a ↦
            let (right, begun) =
              of_admin-Starts (next_of pk r) d' x sent expires a (rw a at w) set in
            (rw f (rw a right), begun)
        | inr b ↦ elim (Bool-cases broken) [
          | inl g ↦
              absurd (kept_not (ap (λ (p : Db × Response). p.1.cookie) (rw g at (rw b at w)) ∙ set))
          | inr g ↦
              let (right, begun) =
                of_account-Starts (get_user_by_username d username) (next_of pk r) d' x sent expires
                  refl (rw g at (rw b at w)) set in
              (rw f (rw b right), begun)
        ]
      ]
