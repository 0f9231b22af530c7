-- ===== src/Store/Sessions/Live.antt =====
-- internal/store/store.go, CreateSession and GetSession: what a token opens, and for how long.
use minmaxmusic3_web.Prelude.{
  ℕ, ◌≤◌, ◌<◌, ◌≡◌, refl, sym, ap, ◌∙◌, ◌≢◌, ◌⊎◌, inl, inr, true, false, Option, none, some, List,
  [], ◌∷◌, ◌++◌, arith, ltb, if◌then◌else◌, Bool-cases, Option-cases, All-Has, Has-first,
  first-append, any_row-false_count, count-sub, All-count_zero, first-remove_apart, Text, text_eq,
  text_eq_sound, text_eq_complete, first, remove, any_row, count-remove_self, first-none,
  first-test,
}
use minmaxmusic3_web.Store.Rows.{User, SessionRow, Db, role_admin, ok}
use minmaxmusic3_web.Store.Users.{get_user_by_id}
use minmaxmusic3_web.Store.Sessions.{
  Session, NewSession, resolve, joined, lapsed, live_token, create_session, row_of, insert_session,
  get_session, delete_session, delete_user_sessions, delete_expired_sessions,
}

-- What GetSession answers of a row whose account is `o`.
abbrev Reads : SessionRow → Option User → Session → Type 0
Reads r o s =
    (s.user_id ≡ r.user_id)
    × (s.expires_at ≡ r.expires_at)
    × (s.token_hash ≡ r.token_hash)
    × (((u : User) × (o ≡ some u)
          × (s.is_admin ≡ text_eq u.role role_admin)
          × (s.status ≡ u.status)
          × (s.username ≡ u.username))
        ⊎ ((o ≡ none) × (s.config_admin ≡ true) × (s.is_admin ≡ true)))

resolve-Reads :
    (r : SessionRow) (o : Option User) (s : Session) → resolve r o ≡ some s → Reads r o s
unfolding resolve
resolve-Reads r none s e = elim (Bool-cases r.config_admin) [
  | inl t ↦ (ground arith, ground arith, ground arith, inr (refl, ground arith, ground arith))
  | inr n ↦ absurd (ground arith)
]
resolve-Reads r (some u) s e = (
  ground arith,
  ground arith,
  ground arith,
  inl (u, refl, ground arith, ground arith, ground arith),
)

module _ (hash : Text → Text) where
  -- A session that is opened comes from a row that the query found.
  opened :
      (d : Db) (now : ℕ) (token : Text) (s : Session)
      → get_session hash d now token ≡ some s
      → (r : SessionRow) × (first (live_token hash now token) d.sessions ≡ some r)
        × Reads r (get_user_by_id d r.user_id) s
  unfolding get_session get_user_by_id
  opened d now token s e = elim (Option-cases (first (live_token hash now token) d.sessions)) [
    | inl n ↦ absurd (ground arith)
    | inr (r, found) ↦
        (r, found, resolve-Reads r (first (λ u. text_eq u.id r.user_id) d.users) s (ground arith))
  ]

  -- What a token opens has not lapsed. Its privilege and status are those of the users row as it is
  -- now; without such a row it is the static administrator's session, and an administrator.
  pub get_session_live :
      (d : Db) (now : ℕ) (token : Text) (s : Session)
      → get_session hash d now token ≡ some s
      → (now < s.expires_at)
        × (s.token_hash ≡ hash token)
        × (((u : User) × (get_user_by_id d s.user_id ≡ some u)
              × (s.is_admin ≡ text_eq u.role role_admin)
              × (s.status ≡ u.status)
              × (s.username ≡ u.username))
            ⊎ ((get_user_by_id d s.user_id ≡ none) × (s.config_admin ≡ true) × (s.is_admin ≡ true)))
  get_session_live d now token s e =
      let (r, found, (same_user, expires, same_hash, who)) = opened d now token s e in
      let live = first-test (live_token hash now token) d.sessions r found in
      (
        ground arith,
        same_hash ∙ text_eq_sound r.token_hash (hash token) (ground arith),
        rw same_user who,
      )

  pub insert-ok :
      (d d' : Db) (now expires : ℕ) (token h : Text) (s : NewSession)
      → insert_session hash d now token s expires ≡ (d', ok h)
      → (any_row (λ (r : SessionRow). text_eq r.token_hash (hash token)) d.sessions ≡ false)
        × (d' ≡ record d { sessions = d.sessions ++ row_of hash now token s expires ∷ [] })
  unfolding insert_session
  insert-ok d d' now expires token h s e =
      elim (Bool-cases
        (any_row (λ (r : SessionRow). text_eq r.token_hash (hash token)) d.sessions)) [
          | inl t ↦ absurd (ground arith)
          | inr free ↦ (free, ground arith)
        ]

  pub create_session-ok :
      (d d' : Db) (now expires : ℕ) (token h : Text) (s : NewSession)
      → create_session hash d now token s ≡ (d', ok h)
      → s.expires_at ≡ some expires
      → insert_session hash d now token s expires ≡ (d', ok h)
  unfolding create_session
  create_session-ok d d' now expires token h s e lives = ground arith

  get-last :
      (d : Db) (later : ℕ) (token : Text) (r : SessionRow)
      → r.token_hash ≡ hash token
      → any_row (λ (x : SessionRow). text_eq x.token_hash (hash token)) d.sessions ≡ false
      → get_session hash (record d { sessions = d.sessions ++ r ∷ [] }) later token
        ≡ (if ltb later r.expires_at then resolve r (get_user_by_id d r.user_id) else none)
  unfolding get_session get_user_by_id first
  get-last d later token r same free =
      rw
        (first-append (live_token hash later token) d.sessions (r ∷ []) (
          any_row-false_count (λ (x : SessionRow). text_eq x.token_hash (hash token))
            (live_token hash later token) d.sessions (λ x l. ground arith) free))
        (ground (arith, text_eq_complete r.token_hash (hash token) same))

  pub created-resolves :
      (d d' : Db) (now later expires : ℕ) (token h : Text) (s : NewSession)
      → create_session hash d now token s ≡ (d', ok h)
      → s.expires_at ≡ some expires
      → get_session hash d' later token ≡ (
          if ltb later expires
          then resolve (row_of hash now token s expires) (get_user_by_id d s.user_id)
          else none)
  created-resolves d d' now later expires token h s e lives =
      let (free, written) =
        insert-ok d d' now expires token h s
          (create_session-ok d d' now expires token h s e lives) in
      rw written (get-last d later token (row_of hash now token s expires) refl free)

  -- The session of a row in `users`: its id, and its name, status and privilege as they are there.
  abbrev pub SessionOf : User → (expires : ℕ) → (token : Text) → Session → Type 0
  SessionOf u expires token v =
      (v.user_id ≡ u.id)
      × (v.username ≡ u.username)
      × (v.status ≡ u.status)
      × (v.is_admin ≡ text_eq u.role role_admin)
      × (v.token_hash ≡ hash token)
      × (v.expires_at ≡ expires)

  -- What a token of the session `s` opens, asked at `later` when the accounts are `users`.
  pub record Opens (now : ℕ) (users : List User) (later expires : ℕ) (token : Text) (s : NewSession)
      (o : Option Session) : Type 0 where
    pub closed : expires ≤ later → o ≡ none
    pub account :
        (u : User)
        → later < expires
        → first (λ r. text_eq r.id s.user_id) users ≡ some u
        → (v : Session) × (o ≡ some v) × SessionOf u expires token v
    pub no_account :
        later < expires
        → first (λ (r : User). text_eq r.id s.user_id) users ≡ none
        → s.config_admin ≡ false
        → o ≡ none
    pub static_admin :
        later < expires
        → first (λ (r : User). text_eq r.id s.user_id) users ≡ none
        → s.config_admin ≡ true
        → (v : Session) × (o ≡ some v) × (v.is_admin ≡ true) × (v.username ≡ s.username)

  resolved-Opens :
      (now : ℕ) (users : List User) (later expires : ℕ) (token : Text) (s : NewSession)
      → Opens now users later expires token s (
          if ltb later expires
          then resolve
              (row_of hash now token s expires)
              (first (λ (u : User). text_eq u.id s.user_id) users)
          else none)
  unfolding resolve
  resolved-Opens now users later expires token s = record {
    closed = λ over. ground arith;
    account = λ u live found.
        let early : ltb later expires ≡ true = ground arith in
        rw early (
          rw found (
            _,
            refl,
            (
              sym (
                  text_eq_sound u.id s.user_id
                    (first-test (λ (r : User). text_eq r.id s.user_id) users u found)),
              refl,
              refl,
              refl,
              refl,
              refl,
            ),
          ));
    no_account = λ live gone unprivileged. ground arith;
    static_admin = λ live gone privileged.
        let early : ltb later expires ≡ true = ground arith in
        rw early (rw gone (rw privileged (_, refl, refl, refl)));
  }

  -- A session that was created, with an expiry, is asked for at some later time, when the accounts
  -- may have become any others. Before its expiry it opens to the row that its account has then, with
  -- that row's name, status and privilege; without such a row to nothing, but the static
  -- administrator's opens as an administrator; from its expiry on to nothing.
  pub create_session-get_session :
      (d d' : Db) (now later expires : ℕ) (token h : Text) (s : NewSession) (users : List User)
      → create_session hash d now token s ≡ (d', ok h)
      → s.expires_at ≡ some expires
      → Opens now users later expires token s
          (get_session hash (record d' { users = users }) later token)
  unfolding get_user_by_id
  create_session-get_session d d' now later expires token h s users e lives =
      let (free, written) =
        insert-ok d d' now expires token h s
          (create_session-ok d d' now expires token h s e lives) in
      rw written (
        rw
          (get-last (record d { users = users }) later token (row_of hash now token s expires) refl
            free)
          (resolved-Opens now users later expires token s))

  -- The sweep of lapsed sessions is invisible: from then on every token opens what it opened before.
  pub delete_expired-get_session :
      (d : Db) (now later : ℕ) (token : Text)
      → now ≤ later
      → get_session hash (delete_expired_sessions d now).0 later token
        ≡ get_session hash d later token
  unfolding get_session delete_expired_sessions
  delete_expired-get_session d now later token h = ap (joined d) (
      first-remove_apart (lapsed now) (live_token hash later token) d.sessions
        (λ r live. ground arith))

  logged_out :
      (d : Db) (now : ℕ) (token : Text)
      → get_session hash (delete_session hash d token) now token ≡ none
  unfolding get_session delete_session
  logged_out d now token =
      let mine = λ (r : SessionRow). text_eq r.token_hash (hash token) in
      rw
        (first-none (live_token hash now token) (remove mine d.sessions) (
          omega (
            arith,
            count-sub mine (live_token hash now token) (remove mine d.sessions)
                (λ r h. ground arith),
            count-remove_self mine d.sessions,
          )))
        refl

  logged_out_everywhere :
      (d : Db) (now : ℕ) (token user_id : Text) (s : Session)
      → get_session hash (delete_user_sessions d user_id).0 now token ≡ some s
      → s.user_id ≢ user_id
  unfolding delete_user_sessions
  logged_out_everywhere d now token user_id s e same =
      let theirs = λ (r : SessionRow). text_eq r.user_id user_id in
      let (r, found, (same_user, expires, same_hash, who)) =
        opened (delete_user_sessions d user_id).0 now token s e in
      let kept : theirs r ≡ false =
        All-Has (λ x. theirs x ≡ false) r (remove theirs d.sessions)
          (All-count_zero theirs (remove theirs d.sessions) (count-remove_self theirs d.sessions))
          (Has-first (live_token hash now token) (remove theirs d.sessions) r found) in
      ground (arith, text_eq_complete r.user_id user_id (sym same_user ∙ same))

  -- Logging out ends the session of that token at once, and logging out everywhere ends every
  -- session of the account.
  pub revoked :
      (d : Db) (now : ℕ) (token user_id : Text)
      → (get_session hash (delete_session hash d token) now token ≡ none)
        × ((s : Session)
            → get_session hash (delete_user_sessions d user_id).0 now token ≡ some s
            → s.user_id ≢ user_id)
  revoked d now token user_id =
      (logged_out d now token, λ s e. logged_out_everywhere d now token user_id s e)
