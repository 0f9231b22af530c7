-- ===== src/Store/Songs/PerJob.antt =====
-- internal/store/store.go, CreateSong: one song for a job, also when the insert is repeated.
use minmaxmusic3_web.Prelude.{
  ◌≤◌, ◌≡◌, sym, ap, ◌∙◌, inl, inr, Bool, true, false, ◌||◌, List, [], ◌∷◌, arith, Bool-cases,
  count-append, any_row-false_count, any_row-append, Text, text_eq, text_eq_sound, text_eq_complete,
  count_rows, any_row,
}
use minmaxmusic3_web.Store.Rows.{Song, Db}
use minmaxmusic3_web.Store.Songs.{create_song}

abbrev pub of_job : Text → Song → Bool
of_job k r = text_eq r.job_id k

-- No job has two songs.
abbrev pub OneSongPerJob : Db → Type 0
OneSongPerJob d = (k : Text) → count_rows (of_job k) d.songs ≤ 1

-- The test by which the insert is ignored.
abbrev conflict : Song → Song → Bool
conflict g r = text_eq r.id g.id || text_eq r.job_id g.job_id

create_song-OneSongPerJob : (d : Db) (g : Song) → OneSongPerJob d → OneSongPerJob (create_song d g)
unfolding create_song count_rows
create_song-OneSongPerJob d g one k = elim (Bool-cases (any_row (conflict g) d.songs)) [
  | inl t ↦ rw t (one k)
  | inr n ↦ rw n (
      rw (count-append (of_job k) d.songs) (elim (Bool-cases (text_eq g.job_id k)) [
        | inl e ↦
            rw (e, any_row-false_count (conflict g) (of_job k) d.songs (λ r h. meets e r h) n)
              (omega arith)
        | inr e ↦ rw e (omega (arith, one k))
      ]))
]
  where
    meets : text_eq g.job_id k ≡ true → (r : Song) → of_job k r ≡ true → conflict g r ≡ true
    meets e r h = ground (
      arith,
      text_eq_complete r.job_id g.job_id
          (text_eq_sound r.job_id k h ∙ sym (text_eq_sound g.job_id k e)),
    )

taken_stays :
    (g h : Song) (rows : List Song)
    → h.job_id ≡ g.job_id
    → any_row (λ (r : Song). text_eq r.id g.id) rows ≡ false
    → any_row (conflict g) rows ≡ true
    → any_row (conflict h) rows ≡ true
unfolding any_row
taken_stays g h [] same fresh t = cc
taken_stays g h (r ∷ rows) same fresh t =
    ground (arith, ap (text_eq r.job_id) same, taken_stays g h rows same)

has_song :
    (d : Db) (g h : Song)
    → any_row (λ (r : Song). text_eq r.id g.id) d.songs ≡ false
    → h.job_id ≡ g.job_id
    → any_row (conflict h) (create_song d g).songs ≡ true
unfolding create_song any_row
has_song d g h fresh same = elim (Bool-cases (any_row (conflict g) d.songs)) [
  | inl t ↦ rw t (taken_stays g h d.songs same fresh t)
  | inr n ↦ rw n (
      rw (any_row-append (conflict h) d.songs)
        (ground (arith, text_eq_complete g.job_id h.job_id (sym same))))
]

-- Every insert keeps one song for a job, and once a song with a fresh id was offered for a job, a
-- further insert for that job, as after a crash, changes nothing.
pub create_song_once :
    (d : Db) (g h : Song)
    → OneSongPerJob d
    → any_row (λ (r : Song). text_eq r.id g.id) d.songs ≡ false
    → h.job_id ≡ g.job_id
    → OneSongPerJob (create_song d g) × (create_song (create_song d g) h ≡ create_song d g)
create_song_once d g h one fresh same =
    (create_song-OneSongPerJob d g one, ignored (create_song d g) (has_song d g h fresh same))
  where
    ignored : (d' : Db) → any_row (conflict h) d'.songs ≡ true → create_song d' h ≡ d'
    ignored d' t = unfold create_song in rw t
