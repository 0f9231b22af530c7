-- ===== src/Store/Users/Deletion.antt =====
-- internal/store/store.go, DeleteUser and UpdateUserStatus: what is gone when they succeed.
use minmaxmusic3_web.Prelude.{
  ℕ, ◌≡◌, refl, ap, subst, inl, inr, Bool, false, some, List, arith, ◌==◌, Bool-cases,
  first-update_self, Text, text_eq, first, update, remove, count_rows, count-remove_self,
  count-remove-le,
}
use minmaxmusic3_web.Store.Rows.{
  Job, Song, User, SessionRow, CoverLink, CoverUpload, Db, status_approved, Error, Result, ok, err,
  with_tx,
}
use minmaxmusic3_web.Store.Users.{
  update_user_status, delete_user, delete_user_rows, status_body, set_status, is_known_status,
  delete_body, with_paths, links_user_song, links_user_upload, user_files,
}

-- Nothing in the database is filed under the account any more, and no cover link points at a song
-- or an upload that was the account's in `d`.
pub record Erased (d d' : Db) (id : Text) : Type 0 where
  pub no_user : count_rows (λ (r : User). text_eq r.id id) d'.users ≡ 0
  pub no_song : count_rows (λ (r : Song). text_eq r.user_id id) d'.songs ≡ 0
  pub no_job : count_rows (λ (r : Job). text_eq r.user_id id) d'.jobs ≡ 0
  pub no_session : count_rows (λ (r : SessionRow). text_eq r.user_id id) d'.sessions ≡ 0
  pub no_upload : count_rows (λ (r : CoverUpload). text_eq r.user_id id) d'.cover_uploads ≡ 0
  pub no_song_link : count_rows (links_user_song id d) d'.cover_links ≡ 0
  pub no_upload_link : count_rows (links_user_upload id d) d'.cover_links ≡ 0

links_gone :
    (p q : CoverLink → Bool) (ls : List CoverLink)
    → (count_rows p (remove q (remove p ls)) ≡ 0) × (count_rows q (remove q (remove p ls)) ≡ 0)
links_gone p q ls = (
  omega (arith, count-remove-le q p (remove p ls), count-remove_self p ls),
  count-remove_self q (remove p ls),
)

delete_user_rows-Erased :
    (d d' : Db) (id : Text) → delete_user_rows id d ≡ (d', ok tt) → Erased d d' id
unfolding delete_user_rows
delete_user_rows-Erased d d' id e =
    elim (Bool-cases (count_rows (λ (r : User). text_eq r.id id) d.users == 0)) [
      | inl t ↦ absurd (ground arith)
      | inr n ↦
          subst (λ x. Erased d x id) (ground arith)
            (whole (links_gone (links_user_song id d) (links_user_upload id d) d.cover_links))
    ]
  where
    whole :
        (count_rows
              (links_user_song id d)
              (remove (links_user_upload id d) (remove (links_user_song id d) d.cover_links))
            ≡ 0)
          × (count_rows
                (links_user_upload id d)
                (remove (links_user_upload id d) (remove (links_user_song id d) d.cover_links))
              ≡ 0)
        → Erased d
            (record {
              jobs = remove (λ r. text_eq r.user_id id) d.jobs;
              songs = remove (λ r. text_eq r.user_id id) d.songs;
              users = remove (λ r. text_eq r.id id) d.users;
              sessions = remove (λ r. text_eq r.user_id id) d.sessions;
              cover_links =
                  remove (links_user_upload id d) (remove (links_user_song id d) d.cover_links);
              cover_uploads = remove (λ r. text_eq r.user_id id) d.cover_uploads;
            })
            id
    whole links = record {
      no_user = count-remove_self (λ (r : User). text_eq r.id id) d.users;
      no_song = count-remove_self (λ (r : Song). text_eq r.user_id id) d.songs;
      no_job = count-remove_self (λ (r : Job). text_eq r.user_id id) d.jobs;
      no_session = count-remove_self (λ (r : SessionRow). text_eq r.user_id id) d.sessions;
      no_upload = count-remove_self (λ (r : CoverUpload). text_eq r.user_id id) d.cover_uploads;
      no_song_link = links.0;
      no_upload_link = links.1;
    }

with_tx-ok :
    {A : Type 0} (body : Db → Db × Result A) (d d' : Db) (a : A)
    → with_tx body d ≡ (d', ok a)
    → body d ≡ (d', ok a)
with_tx-ok body d d' a e = ground arith

with_tx-err :
    {A : Type 0} (body : Db → Db × Result A) (d d' : Db) (e : Error)
    → with_tx body d ≡ (d', err e)
    → d' ≡ d
with_tx-err body d d' e h = ground arith

module _ (join : Text → Text → Text) where
  with_paths-ok :
      (files paths : List Text) (m : Db × Result (Unit {0})) (d' : Db)
      → with_paths join files m ≡ (d', ok paths)
      → (m ≡ (d', ok tt)) × (paths ≡ files)
  with_paths-ok files paths (d, ok u) d' e = ground arith
  with_paths-ok files paths (d, err x) d' e = ground arith

  delete_body-ok :
      (d d' : Db) (id : Text) (paths : List Text)
      → delete_body join id d ≡ (d', ok paths)
      → (delete_user_rows id d ≡ (d', ok tt)) × (paths ≡ user_files join id d)
  unfolding delete_body
  delete_body-ok d d' id paths e =
      ground (arith, with_paths-ok (user_files join id d) paths (delete_user_rows id d) d')

  -- A deletion that succeeds leaves nothing of the account, and answers the paths of the files
  -- that it owned; one that fails, for whatever reason, leaves the database as it was.
  pub delete_user_complete :
      (d d' : Db) (id : Text)
      → ((paths : List Text)
          → delete_user join d id ≡ (d', ok paths)
          → Erased d d' id × (paths ≡ user_files join id d))
        × ((e : Error) → delete_user join d id ≡ (d', err e) → d' ≡ d)
  unfolding delete_user
  delete_user_complete d d' id = (
    λ paths done.
        let (rows, files) =
          delete_body-ok d d' id paths (with_tx-ok (delete_body join id) d d' paths done) in
        (delete_user_rows-Erased d d' id rows, files),
    λ e failed. with_tx-err (delete_body join id) d d' e failed,
  )

set_status-ok :
    (d d' : Db) (now : ℕ) (id status : Text)
    → set_status now id status d ≡ (d', ok tt)
    → text_eq status status_approved ≡ false
    → (d'.sessions ≡ remove (λ r. text_eq r.user_id id) d.sessions)
      × (d'.users
          ≡ update
              (λ (r : User). text_eq r.id id)
              (λ r. record r { status = status; updated_at = now })
              d.users)
unfolding set_status
set_status-ok d d' now id status e down = ground arith

status_body-ok :
    (d d' : Db) (now : ℕ) (id status : Text)
    → status_body now id status d ≡ (d', ok tt)
    → set_status now id status d ≡ (d', ok tt)
unfolding status_body
status_body-ok d d' now id status e = ground arith

-- A status change away from approved that succeeds leaves the account no session, and the new
-- status on its row.
pub disabled_loses_sessions :
    (d d' : Db) (now : ℕ) (id status : Text)
    → update_user_status d now id status ≡ (d', ok tt)
    → text_eq status status_approved ≡ false
    → (count_rows (λ (r : SessionRow). text_eq r.user_id id) d'.sessions ≡ 0)
      × ((u : User) → first (λ r. text_eq r.id id) d'.users ≡ some u → u.status ≡ status)
unfolding update_user_status
disabled_loses_sessions d d' now id status e down = elim (Bool-cases (is_known_status status)) [
  | inl known ↦ written (with_tx-ok (status_body now id status) d d' tt (ground arith))
  | inr unknown ↦ absurd (ground arith)
]
  where
    restatus : User → User
    restatus r = record r { status = status; updated_at = now }

    written :
        status_body now id status d ≡ (d', ok tt)
        → (count_rows (λ (r : SessionRow). text_eq r.user_id id) d'.sessions ≡ 0)
          × ((u : User) → first (λ r. text_eq r.id id) d'.users ≡ some u → u.status ≡ status)
    written h =
        let (sessions', users') =
          set_status-ok d d' now id status (status_body-ok d d' now id status h) down in
        (
          rw sessions' (count-remove_self (λ (r : SessionRow). text_eq r.user_id id) d.sessions),
          λ u found.
              ap (λ (r : User). r.status)
                (first-update_self (λ (r : User). text_eq r.id id) restatus d.users u (λ x. refl)
                  (rw users' at found)).1,
        )
