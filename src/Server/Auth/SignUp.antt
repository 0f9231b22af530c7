-- ===== src/Server/Auth/SignUp.antt =====
-- internal/server/auth.go, handleRegister: what a sign-up can bring about.
use minmaxmusic3_web.Prelude.{
  ℕ, ◌≡◌, refl, ◌⊎◌, inl, inr, Bool, true, ◌&&◌, not, Option, none, some, [], ◌∷◌, ◌++◌, arith,
  Bool-cases, if_cases, Text, codes, text_eq, trim_space, is_empty, any_row, equal_fold,
}
use minmaxmusic3_web.Store.Rows.{User, Db, status_pending, role_user}
use minmaxmusic3_web.Config.{Config}
use minmaxmusic3_web.Store.Users.{create_user, new_account, taken}
use minmaxmusic3_web.Server.Http.{Request, Packages, Response, kept}
use minmaxmusic3_web.Server.Auth.{register, hashed, account, validate_credentials}

-- The one account that a sign-up adds.
abbrev pub AddsPending : Db → (username : Text) → Db → Type 0
AddsPending d username d' =
    (u : User) × (d' ≡ record d { users = d.users ++ u ∷ [] })
    × (u.username ≡ username)
    × (u.status ≡ status_pending)
    × (u.role ≡ role_user)

module _ (pk : Packages) (c : Config) (d : Db) (now : ℕ) (id : Text) (r : Request) where
  abbrev pub signup_name : Text
  signup_name = trim_space (r.form (codes "username"))

  abbrev pub signup_password : Text
  signup_password = r.form (codes "password")

  -- What the form must meet.
  abbrev pub acceptable : Bool
  acceptable =
      is_empty (validate_credentials signup_name signup_password)
      && text_eq signup_password (r.form (codes "confirm_password"))
      && not (not (is_empty c.admin_user) && equal_fold signup_name c.admin_user)

  abbrev pub SignsUp : Db × Response → Type 0
  SignsUp p =
      (p.1.cookie ≡ kept) × ((p.0 ≡ d) ⊎ ((acceptable ≡ true) × AddsPending d signup_name p.0))

  abbrev Outcome : Db × Response → Type 0
  Outcome (d', x) = (x.cookie ≡ kept) × ((d' ≡ d) ⊎ AddsPending d signup_name d')

  hashed-Outcome : (o : Option Text) → Outcome (hashed pk d now id signup_name o)
  unfolding create_user new_account
  hashed-Outcome none = (refl, inl refl)
  hashed-Outcome (some hash) =
      elim (Bool-cases (any_row (taken (account id signup_name hash)) d.users)) [
        | inl t ↦ rw t (refl, inl refl)
        | inr f ↦ rw f (refl, inr (_, refl, refl, refl, refl))
      ]

  checked : acceptable ≡ true → (p : Db × Response) → Outcome p → SignsUp p
  checked good (d', x) (cookie, inl same) = (cookie, inl same)
  checked good (d', x) (cookie, inr added) = (cookie, inr (good, added))

  -- A sign-up never touches the session cookie, and either changes nothing or adds one account, which
  -- waits for approval and has no privilege, under a name and a password that meet the rules, given
  -- twice alike, and not under the static administrator's name.
  pub register-SignsUp : SignsUp (register pk c d now id r)
  unfolding register
  register-SignsUp =
      if_cases SignsUp (not r.form_ok) _ _ (λ t. (refl, inl refl))
        (λ read.
          if_cases SignsUp (not (is_empty (validate_credentials signup_name signup_password))) _ _
            (λ t. (refl, inl refl))
            (λ fine.
              if_cases SignsUp (not (text_eq signup_password (r.form (codes "confirm_password")))) _
                _ (λ t. (refl, inl refl))
                (λ same.
                  if_cases SignsUp
                    (not (is_empty c.admin_user) && equal_fold signup_name c.admin_user) _ _
                    (λ t. (refl, inl refl))
                    (λ free.
                      checked (ground arith)
                        (hashed pk d now id signup_name (pk.bcrypt_generate signup_password))
                        (hashed-Outcome (pk.bcrypt_generate signup_password))))))
