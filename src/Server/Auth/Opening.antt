-- ===== src/Server/Auth/Opening.antt =====
-- internal/server/auth.go, startSession: what the cookie of a sign-in opens, and what becomes of the
-- session that the client came with.
use minmaxmusic3_web.Prelude.{
  ℕ, ◌+◌, ◌≡◌, refl, ap, ◌∙◌, inl, inr, Bool, true, false, none, arith, ltb, if◌then◌else◌,
  Bool-cases, first-append, count-sub, Text, text_eq, is_empty, first, remove, count_rows,
  count-remove_self,
}
use minmaxmusic3_web.Store.Rows.{User, SessionRow, Db, ok}
use minmaxmusic3_web.Config.{Config}
use minmaxmusic3_web.Store.Users.{get_user_by_id}
use minmaxmusic3_web.Store.Sessions.{resolve, row_of, live_token, get_session, delete_session}
use minmaxmusic3_web.Store.Sessions.Live.{created-resolves, create_session-ok, insert-ok}
use minmaxmusic3_web.Server.Http.{Request, Packages, Response, set_to}
use minmaxmusic3_web.Server.Auth.{login, start_session, session_for, session_ttl, without_old}
use minmaxmusic3_web.Server.Auth.Outcomes.{Entitled, verified, login-Starts}

module _ (pk : Packages) (d : Db) (now : ℕ) (token : Text) (r : Request) where
  without_old-users : (without_old pk d r).users ≡ d.users
  unfolding delete_session
  without_old-users = elim (Bool-cases (is_empty r.cookie)) [
    | inl t ↦ rw t refl
    | inr f ↦ rw f refl
  ]

  old_gone :
      is_empty r.cookie ≡ false
      → (later : ℕ)
      → count_rows (live_token pk.hash later r.cookie) (without_old pk d r).sessions ≡ 0
  unfolding delete_session
  old_gone shown later =
      let mine = λ (x : SessionRow). text_eq x.token_hash (pk.hash r.cookie) in
      rw shown (
        omega (
          arith,
          count-sub mine (live_token pk.hash later r.cookie) (remove mine d.sessions)
              (λ x h. ground arith),
          count-remove_self mine d.sessions,
        ))

  -- The old cookie opens nothing any more, unless it hashes to what the new token does.
  old_cookie_dead :
      (d' : Db) (user_id name h : Text) (config_admin : Bool) (later : ℕ)
      → start_session pk d now token r user_id name config_admin ≡ (d', ok h)
      → is_empty r.cookie ≡ false
      → text_eq (pk.hash token) (pk.hash r.cookie) ≡ false
      → get_session pk.hash d' later r.cookie ≡ none
  unfolding start_session get_session first
  old_cookie_dead d' user_id name h config_admin later begun shown other =
      let s = session_for now user_id name config_admin in
      let (free, written) =
        insert-ok pk.hash (without_old pk d r) d' now (now + session_ttl) token h s (
          create_session-ok pk.hash (without_old pk d r) d' now (now + session_ttl) token h s begun
            refl) in
      rw written (
        rw
          (first-append (live_token pk.hash later r.cookie) (without_old pk d r).sessions _
            (old_gone shown later))
          (rw other refl))

  new_cookie_opens :
      (d' : Db) (user_id name h : Text) (config_admin : Bool) (later : ℕ)
      → start_session pk d now token r user_id name config_admin ≡ (d', ok h)
      → get_session pk.hash d' later token ≡ (
          if ltb later (now + session_ttl)
          then resolve
              (row_of pk.hash now token
                (session_for now user_id name config_admin)
                (now + session_ttl))
              (get_user_by_id d user_id)
          else none)
  unfolding start_session get_user_by_id
  new_cookie_opens d' user_id name h config_admin later begun =
      created-resolves pk.hash (without_old pk d r) d' now later (now + session_ttl) token h
        (session_for now user_id name config_admin) begun refl
      ∙ ap
          (λ us.
            if ltb later (now + session_ttl)
            then resolve
                (row_of pk.hash now token (session_for now user_id name config_admin)
                  (now + session_ttl))
                (first (λ (u : User). text_eq u.id user_id) us)
            else none)
          without_old-users

-- What a sign-in that hands out the cookie `sent` comes to, in the database that it leaves.
abbrev pub SignsIn :
    Packages → Config → Db → (now : ℕ) → (token : Text) → Request → Db → (sent : Text) → Type 0
SignsIn pk c d now token r d' sent =
    (user_id : Text) × (name : Text) × (config_admin : Bool) × Entitled pk c d now token r user_id
      name config_admin
    × ((later : ℕ)
        → get_session pk.hash d' later sent ≡ (
            if ltb later (now + session_ttl)
            then resolve
                (row_of pk.hash now token (session_for now user_id name config_admin)
                  (now + session_ttl))
                (get_user_by_id d user_id)
            else none))
    × (is_empty r.cookie ≡ false
        → text_eq (pk.hash token) (pk.hash r.cookie) ≡ false
        → (later : ℕ) → get_session pk.hash d' later r.cookie ≡ none)

-- A sign-in that hands out a cookie has verified the password; the cookie opens, for seven days, the
-- approved account of that name, or the static administrator's session, and the session that the
-- client came with is dead, so that a token planted before the sign-in is not promoted.
pub login-SignsIn :
    (pk : Packages) (c : Config) (d d' : Db) (now : ℕ) (token : Text) (r : Request) (broken : Bool)
    (x : Response) (sent : Text) (expires : ℕ)
    → login pk c broken d now token r ≡ (d', x)
    → x.cookie ≡ set_to sent expires
    → (verified pk c d now token r ≡ true)
      × (expires ≡ now + session_ttl)
      × SignsIn pk c d now token r d' sent
login-SignsIn pk c d d' now token r broken x sent expires e set =
    let (right, (user_id, name, config_admin, h, begun, same, until, who)) =
      login-Starts pk c d now token r broken d' x sent expires e set in
    (
      right,
      until,
      (
        user_id,
        name,
        config_admin,
        who,
        (λ later.
            ap (get_session pk.hash d' later) same
            ∙ new_cookie_opens pk d now token r d' user_id name h config_admin later begun),
        λ shown other later.
            old_cookie_dead pk d now token r d' user_id name h config_admin later begun shown other,
      ),
    )
