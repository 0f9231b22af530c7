-- ===== src/Store/Users/Admins.antt =====
-- internal/store/store.go, guardLastAdmin and its two callers: the database is never left without
-- an approved administrator.
use minmaxmusic3_web.Prelude.{
  ℕ, ◌≤◌, ◌≡◌, refl, sym, ◌∙◌, ◌⊎◌, inl, inr, Bool, true, false, ◌&&◌, not, Option, none, some,
  List, [], ◌∷◌, ◌++◌, arith, if◌then◌else◌, Bool-cases, count-append, any_row-false_count,
  count-sub, count-update_same, count-update_mono, count-update_others, count-remove_others,
  count-unique_outside, Text, text_eq, text_eq_sound, text_eq_complete, first, update, remove,
  count_rows, any_row, count-remove-le,
}
use minmaxmusic3_web.Store.Rows.{User, Db, status_approved, Error, Result, ok, err, with_tx}
use minmaxmusic3_web.Store.Users.{
  create_user, new_account, taken, update_user_status, delete_user, delete_user_rows,
  guard_last_admin, guard_row, is_approved_admin, status_body, set_status, is_known_status,
  delete_body, with_paths, user_files,
}

abbrev pub with_id : Text → User → Bool
with_id k u = text_eq u.id k

-- The primary key, and what the guard protects.
pub record GovernedRows (users : List User) : Type 0 where
  pub unique : (k : Text) → count_rows (with_id k) users ≤ 1
  pub admin : 1 ≤ count_rows is_approved_admin users

abbrev pub Governed : Db → Type 0
Governed d = GovernedRows d.users

abbrev other_admin : Text → User → Bool
other_admin id u = is_approved_admin u && not (text_eq u.id id)

guard_row-leaves :
    (d : Db) (id : Text) (o : Option User)
    → Governed d
    → first (with_id id) d.users ≡ o
    → guard_row d id o ≡ ok tt
    → 1 ≤ count_rows (other_admin id) d.users
guard_row-leaves d id none v e h = cc
guard_row-leaves d id (some u) v e h = elim (Bool-cases (is_approved_admin u)) [
  | inl t ↦ ground arith
  | inr n ↦ omega (
    arith,
    v.admin,
    count-unique_outside (with_id id) is_approved_admin d.users u (v.unique id) e n,
  )
]

-- Where the guard passes, another approved administrator is there.
guard-leaves :
    (d : Db) (id : Text)
    → Governed d
    → guard_last_admin d id ≡ ok tt
    → 1 ≤ count_rows (other_admin id) d.users
unfolding guard_last_admin
guard-leaves d id v h = guard_row-leaves d id (first (with_id id) d.users) v refl h

others-are_admins :
    (id : Text) (xs : List User) → count_rows (other_admin id) xs ≤ count_rows is_approved_admin xs
others-are_admins id xs = count-sub is_approved_admin (other_admin id) xs (λ u h. ground arith)

abbrev restatus : ℕ → Text → User → User
restatus now status r = record r { status = status; updated_at = now }

restatus-GovernedRows :
    (users : List User) (now : ℕ) (id status : Text)
    → GovernedRows users
    → (text_eq status status_approved ≡ true) ⊎ (1 ≤ count_rows (other_admin id) users)
    → GovernedRows (update (with_id id) (restatus now status) users)
restatus-GovernedRows users now id status v why = record {
  unique = λ k. omega (
    arith,
    v.unique k,
    count-update_same (with_id id) (with_id k) (restatus now status) users (λ r. refl),
  );
  admin = elim why [
    | inl up ↦ omega (
      arith,
      v.admin,
      count-update_mono (with_id id) is_approved_admin (restatus now status) users
          (λ r h. ground arith),
    )
    | inr others ↦ omega (
      arith,
      others-are_admins id (update (with_id id) (restatus now status) users),
      count-update_others (with_id id) is_approved_admin (restatus now status) users (λ r. refl),
    )
  ];
}

set_status-users :
    (d : Db) (now : ℕ) (id status : Text)
    → ((set_status now id status d).0.users ≡ d.users)
      ⊎ ((set_status now id status d).0.users ≡ update (with_id id) (restatus now status) d.users)
unfolding set_status
set_status-users d now id status = ground arith

set_status-Governed :
    (d : Db) (now : ℕ) (id status : Text)
    → Governed d
    → (text_eq status status_approved ≡ true) ⊎ (1 ≤ count_rows (other_admin id) d.users)
    → Governed (set_status now id status d).0
set_status-Governed d now id status v why = elim (set_status-users d now id status) [
  | inl same ↦ rw same v
  | inr new ↦ rw new (restatus-GovernedRows d.users now id status v why)
]

Result-cases : (r : Result (Unit {0})) → (r ≡ ok tt) ⊎ ((e : Error) × (r ≡ err e))
Result-cases (ok u) = inl refl
Result-cases (err e) = inr (e, refl)

status_body-Governed :
    (d : Db) (now : ℕ) (id status : Text) → Governed d → Governed (status_body now id status d).0
unfolding status_body
status_body-Governed d now id status v = elim (Bool-cases (text_eq status status_approved)) [
  | inl up ↦ rw (up, status_body) (set_status-Governed d now id status v (inl up))
  | inr down ↦
      rw (down, status_body)
        (elim (Result-cases (guard_last_admin d id)) [
          | inl passed ↦
              rw passed (set_status-Governed d now id status v (inr (guard-leaves d id v passed)))
          | inr (e, refused) ↦ rw refused v
        ])
]

with_tx-Governed :
    {A : Type 0} (body : Db → Db × Result A) (d : Db)
    → Governed d
    → Governed (body d).0
    → Governed (with_tx body d).0
with_tx-Governed {A} body d v w = committed (body d).1
  where
    committed :
        (r : Result A)
        → Governed
            (elim r as (λ x. Db × Result A) [ ok a ↦ ((body d).0, ok a) | err e ↦ (d, err e) ]).0
    committed (ok a) = w
    committed (err e) = v

-- A change of status keeps the accounts unique and an approved administrator in place.
pub update_user_status-Governed :
    (d : Db) (now : ℕ) (id status : Text)
    → Governed d
    → Governed (update_user_status d now id status).0
unfolding update_user_status
update_user_status-Governed d now id status v = elim (Bool-cases (is_known_status status)) [
  | inl known ↦
      rw known
        (with_tx-Governed (status_body now id status) d v (status_body-Governed d now id status v))
  | inr unknown ↦ rw unknown v
]

create_user-Governed :
    (d : Db) (now : ℕ) (created : Option ℕ) (u : User)
    → Governed d
    → Governed (create_user d now created u).0
unfolding create_user
create_user-Governed d now created u v = elim (Bool-cases (any_row (taken u) d.users)) [
  | inl t ↦ rw (t, create_user) v
  | inr free ↦
      rw (free, create_user)
        (record {
          unique = λ k. one k (Bool-cases (text_eq u.id k)) free;
          admin = omega (
            arith,
            v.admin,
            count-append is_approved_admin d.users (new_account now created u ∷ []),
          );
        })
]
  where
    clash : (k : Text) → text_eq u.id k ≡ true → (r : User) → with_id k r ≡ true → taken u r ≡ true
    clash k e r h =
        ground (
          arith,
          text_eq_complete r.id u.id (text_eq_sound r.id k h ∙ sym (text_eq_sound u.id k e)),
        )

    last :
        (k : Text)
        → count_rows (with_id k) (new_account now created u ∷ [])
          ≡ (if text_eq u.id k then 1 else 0)
    last k = unfold count_rows new_account in refl

    one :
        (k : Text)
        → (text_eq u.id k ≡ true) ⊎ (text_eq u.id k ≡ false)
        → any_row (taken u) d.users ≡ false
        → count_rows (with_id k) (d.users ++ new_account now created u ∷ []) ≤ 1
    one k (inl e) free =
        rw
          (
            count-append (with_id k) d.users,
            last k,
            e,
            any_row-false_count (taken u) (with_id k) d.users (clash k e) free,
          )
          (omega arith)
    one k (inr n) free =
        rw (count-append (with_id k) d.users, last k, n) (omega (arith, v.unique k))

drop-GovernedRows :
    (users : List User) (id : Text)
    → GovernedRows users
    → 1 ≤ count_rows (other_admin id) users
    → GovernedRows (remove (with_id id) users)
drop-GovernedRows users id v others = record {
  unique = λ k. omega (arith, v.unique k, count-remove-le (with_id id) (with_id k) users);
  admin = omega (
    arith,
    others-are_admins id (remove (with_id id) users),
    count-remove_others (with_id id) is_approved_admin users,
  );
}

delete_user_rows-users :
    (d : Db) (id : Text)
    → ((delete_user_rows id d).0.users ≡ d.users)
      ⊎ ((delete_user_rows id d).0.users ≡ remove (with_id id) d.users)
unfolding delete_user_rows
delete_user_rows-users d id = ground arith

delete_user_rows-Governed :
    (d : Db) (id : Text)
    → Governed d
    → 1 ≤ count_rows (other_admin id) d.users
    → Governed (delete_user_rows id d).0
delete_user_rows-Governed d id v others = elim (delete_user_rows-users d id) [
  | inl same ↦ rw same v
  | inr new ↦ rw new (drop-GovernedRows d.users id v others)
]

module _ (join : Text → Text → Text) where
  with_paths-Governed :
      (paths : List Text) (m : Db × Result (Unit {0}))
      → Governed m.0
      → Governed (with_paths join paths m).0
  with_paths-Governed paths (d, ok u) v = v
  with_paths-Governed paths (d, err e) v = v

  delete_body-Governed : (d : Db) (id : Text) → Governed d → Governed (delete_body join id d).0
  unfolding delete_body
  delete_body-Governed d id v = elim (Result-cases (guard_last_admin d id)) [
    | inl passed ↦
        rw (passed, delete_body)
          (with_paths-Governed (user_files join id d) (delete_user_rows id d)
            (delete_user_rows-Governed d id v (guard-leaves d id v passed)))
    | inr (e, refused) ↦ rw (refused, delete_body) v
  ]

  -- Deleting an account keeps the accounts unique and an approved administrator in place.
  pub delete_user-Governed : (d : Db) (id : Text) → Governed d → Governed (delete_user join d id).0
  unfolding delete_user
  delete_user-Governed d id v =
      with_tx-Governed (delete_body join id) d v (delete_body-Governed d id v)

  -- What the server does to the accounts.
  pub data AccountOp : Type 0 where
    sign_up : (now : ℕ) → Option ℕ → User → AccountOp
    set_status_to : (now : ℕ) → (id status : Text) → AccountOp
    delete_account : (id : Text) → AccountOp

  pub apply : Db → AccountOp → Db
  apply d (sign_up now created u) = (create_user d now created u).0
  apply d (set_status_to now id status) = (update_user_status d now id status).0
  apply d (delete_account id) = (delete_user join d id).0

  pub apply_all : Db → List AccountOp → Db
  apply_all d [] = d
  apply_all d (op ∷ ops) = apply_all (apply d op) ops

  apply-Governed : (d : Db) (op : AccountOp) → Governed d → Governed (apply d op)
  unfolding apply
  apply-Governed d (sign_up now created u) v = create_user-Governed d now created u v
  apply-Governed d (set_status_to now id status) v = update_user_status-Governed d now id status v
  apply-Governed d (delete_account id) v = delete_user-Governed d id v

  -- No sequence of sign-ups, status changes and deletions leaves a database whose accounts have
  -- unique ids, one of them an approved administrator, without an approved administrator.
  pub admin_survives : (d : Db) (ops : List AccountOp) → Governed d → Governed (apply_all d ops)
  unfolding apply_all
  admin_survives d [] v = v
  admin_survives d (op ∷ ops) v = admin_survives (apply d op) ops (apply-Governed d op v)
