-- ===== src/Store/Songs/Ownership.antt =====
-- internal/store/store.go, the ownership predicate of the songs table: what a caller reads and
-- what a write by a caller can change.
use minmaxmusic3_web.Prelude.{
  ◌≡◌, ◌≢◌, refl, Bool, true, false, ◌&&◌, none, some, List, [], ◌∷◌, Text, text_eq, text_eq_sound,
  is_empty, arith, All, first-test, first-none_count, update_none, count_rows, remove, first-none,
  count-remove_self, first-remove_apart, first-some_count, count-none, count-sub, sym, ◌∙◌, ◌≤◌,
  All-map_prop,
}
use minmaxmusic3_web.Store.Rows.{Job, Song, Db, err_no_rows, ok, err, Access, zero_access, owned_by}
use minmaxmusic3_web.Store.Jobs.{job}
use minmaxmusic3_web.Store.Songs.{
  visible, song, set_song_public, delete_song, update_song_title, delete_job_of,
}

-- A caller who is not an administrator is shown only a song of their own, and the one asked for.
pub song_scoped :
    (d : Db) (id : Text) (a : Access) (g : Song)
    → a.admin ≡ false
    → song d id a ≡ some g
    → (g.user_id ≡ a.user_id) × (g.id ≡ id)
unfolding song
song_scoped d id a g user e = ground (
  arith,
  first-test (visible id a) d.songs g,
  text_eq_sound g.user_id a.user_id,
  text_eq_sound g.id id,
)

-- The owners that the store writes are never the empty string.
abbrev pub OwnersNamed : Db → Type 0
OwnersNamed d =
    All (λ (r : Song). is_empty r.user_id ≡ false) d.songs
    × All (λ (r : Job). is_empty r.user_id ≡ false) d.jobs

unowned : (t : Text) → is_empty t ≡ false → text_eq t [] ≡ false
unfolding text_eq
unowned [] h = cc
unowned (x ∷ t) h = refl

-- The zero Access owns nothing: where every owner is named, it is shown no song and no job.
pub zero_access_reads_nothing :
    (d : Db) (id : Text)
    → OwnersNamed d
    → (song d id zero_access ≡ none) × (job d id zero_access ≡ none)
unfolding song job
zero_access_reads_nothing d id named = (
  first-none (visible id zero_access) d.songs (
      count-none (visible id zero_access) d.songs
        (All-map_prop d.songs (λ r h. hidden_song r h) named.0)),
  first-none (λ (r : Job). text_eq r.id id && owned_by zero_access r.user_id) d.jobs
      (count-none (λ (r : Job). text_eq r.id id && owned_by zero_access r.user_id) d.jobs
        (All-map_prop d.jobs (λ r h. hidden_job r h) named.1)),
)
  where
    hidden_song : (r : Song) → is_empty r.user_id ≡ false → visible id zero_access r ≡ false
    hidden_song r h = ground (arith, unowned r.user_id h)

    hidden_job :
        (r : Job)
        → is_empty r.user_id ≡ false
        → (text_eq r.id id && owned_by zero_access r.user_id) ≡ false
    hidden_job r h = ground (arith, unowned r.user_id h)

delete_song-missing :
    (d : Db) (id : Text) (a : Access) → song d id a ≡ none → delete_song d id a ≡ (d, ok none)
unfolding delete_song
delete_song-missing d id a e = rw (e, delete_song) refl

set_song_public-missing :
    (d : Db) (id : Text) (public : Bool) (a : Access)
    → song d id a ≡ none
    → set_song_public d id public a ≡ (d, none)
unfolding set_song_public song
set_song_public-missing d id public a e = rw (
  update_none (visible id a) (λ r. record r { is_public = public }) d.songs
      (first-none_count (visible id a) d.songs e),
  e,
)

update_song_title-missing :
    (d : Db) (id title : Text) (a : Access)
    → song d id a ≡ none
    → update_song_title d id title a ≡ (d, err err_no_rows)
unfolding update_song_title song
update_song_title-missing d id title a e = rw (first-none_count (visible id a) d.songs e)

-- A caller who may not see a song changes nothing by deleting, sharing or renaming it, and is
-- answered as for a song that does not exist.
pub outsider_changes_nothing :
    (d : Db) (id title : Text) (public : Bool) (a : Access)
    → song d id a ≡ none
    → (delete_song d id a ≡ (d, ok none))
      × (set_song_public d id public a ≡ (d, none))
      × (update_song_title d id title a ≡ (d, err err_no_rows))
outsider_changes_nothing d id title public a e = (
  delete_song-missing d id a e,
  set_song_public-missing d id public a e,
  update_song_title-missing d id title a e,
)

seen_count :
    (d : Db) (id : Text) (a : Access) (g : Song)
    → song d id a ≡ some g
    → 1 ≤ count_rows (visible id a) d.songs
unfolding song
seen_count d id a g e = first-some_count (visible id a) d.songs g e

delete_song-found :
    (d : Db) (id : Text) (a : Access) (g : Song)
    → song d id a ≡ some g
    → delete_song d id a
      ≡ (delete_job_of g (record d { songs = remove (visible id a) d.songs }), ok (some g))
unfolding delete_song
delete_song-found d id a g e = rw (e, delete_song) (ground (arith, seen_count d id a g e))

removed_unseen :
    (d : Db) (id : Text) (a : Access) (g : Song)
    → song (delete_job_of g (record d { songs = remove (visible id a) d.songs })) id a ≡ none
unfolding song
removed_unseen d id a g = ground (
  arith,
  first-none (visible id a) (remove (visible id a) d.songs)
      (count-remove_self (visible id a) d.songs),
)

others_seen :
    (d : Db) (id other : Text) (a b : Access) (g : Song)
    → other ≢ id
    → song (delete_job_of g (record d { songs = remove (visible id a) d.songs })) other b
      ≡ song d other b
unfolding song
others_seen d id other a b g apart =
    ground (arith, first-remove_apart (visible id a) (visible other b) d.songs hidden)
  where
    hidden : (r : Song) → visible other b r ≡ true → visible id a r ≡ false
    hidden r h = ground (
      arith,
      text_eq_sound r.id other,
      text_eq_sound r.id id,
      λ (p : r.id ≡ id) (q : r.id ≡ other). apart (sym q ∙ p),
    )

job_removed :
    (d : Db) (songs' : List Song) (b : Access) (g : Song)
    → is_empty g.job_id ≡ false
    → job (delete_job_of g (record d { songs = songs' })) g.job_id b ≡ none
unfolding job
job_removed d songs' b g has_job =
    let of_job = λ (r : Job). text_eq r.id g.job_id in
    let asked = λ (r : Job). text_eq r.id g.job_id && owned_by b r.user_id in
    ground (
      arith,
      has_job,
      first-none asked (remove of_job d.jobs) (
          omega (
            arith,
            count-sub of_job asked (remove of_job d.jobs) (λ r h. ground arith),
            count-remove_self of_job d.jobs,
          )),
    )

-- Deleting a song that the caller may see, and that has a job, answers the song, leaves no row
-- that this caller could still see under that id, removes the job for every caller, and leaves
-- what any caller sees under another id as it was.
pub delete_song_removes :
    (d : Db) (id other : Text) (a b : Access) (g : Song)
    → song d id a ≡ some g
    → other ≢ id
    → is_empty g.job_id ≡ false
    → let (d', r) = delete_song d id a in
      (r ≡ ok (some g))
      × (song d' id a ≡ none)
      × (job d' g.job_id b ≡ none)
      × (song d' other b ≡ song d other b)
delete_song_removes d id other a b g e apart has_job = rw (delete_song-found d id a g e) (
  refl,
  removed_unseen d id a g,
  job_removed d (remove (visible id a) d.songs) b g has_job,
  others_seen d id other a b g apart,
)
