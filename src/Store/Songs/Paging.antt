-- ===== src/Store/Songs/Paging.antt =====
-- internal/store/store.go, the paged reads of the library.
use minmaxmusic3_web.Prelude.{
  ℕ, ◌≤◌, ◌≡◌, Bool, true, false, arith, leb, length, drop, length-take-le, All, All-take, All-drop,
  Text, text_eq, text_eq_sound, select, sort_by, All-select, ℤ, pos, negsuc, pos_part, ◌≤ℤ◌,
  All-sort_by,
}
use minmaxmusic3_web.Store.Rows.{Song, Db, Access}
use minmaxmusic3_web.Store.Songs.{
  clamp_page, page, personal_songs, public_songs, songs, max_page_size,
}

-- Whatever window is asked for, the one that reaches SQL has a limit from 1 to 100 and an offset
-- that is not negative, and a window that already meets these bounds is passed on as it is.
pub clamp_page_bounds :
    (limit offset : ℤ)
    → let (l, o) = clamp_page limit offset in
      (pos 1 ≤ℤ l)
      × (l ≤ℤ max_page_size)
      × (pos 0 ≤ℤ o)
      × (pos 1 ≤ℤ limit → limit ≤ℤ max_page_size → l ≡ limit)
      × (pos 0 ≤ℤ offset → o ≡ offset)
unfolding clamp_page
clamp_page_bounds limit offset =
    (ground arith, ground arith, ground arith, λ a b. ground arith, λ a. ground arith)

pos_part-le : (l : ℤ) (n : ℕ) → l ≤ℤ pos n → pos_part l ≤ n
pos_part-le (pos m) n h = omega arith
pos_part-le (negsuc m) n h = omega arith

page_window : (d : Db) (test : Song → Bool) (l o : ℤ) → length (page d test (l, o)) ≤ pos_part l
unfolding page
page_window d test l o = length-take-le (pos_part l) (
    drop (pos_part o)
      (sort_by (λ (a b : Song). leb b.created_at a.created_at) (select test d.songs)))

page-length :
    (d : Db) (test : Song → Bool) (limit offset : ℤ)
    → length (page d test (clamp_page limit offset)) ≤ 100
page-length d test limit offset =
    let w = clamp_page limit offset in
    omega
      (arith, page_window d test w.0 w.1, pos_part-le w.0 100 (clamp_page_bounds limit offset).1)

page-All :
    (P : Song → Type 0) (d : Db) (test : Song → Bool) (w : ℤ × ℤ)
    → ((r : Song) → test r ≡ true → P r)
    → All P (page d test w)
unfolding page
page-All P d test (l, o) h =
    All-take P (pos_part l) _
      (All-drop P (pos_part o) _ (All-sort_by _ P _ (All-select P test d.songs h)))

-- A page of "my songs" has at most 100 rows, each of the user's own, whatever window is asked for;
-- a page of the shared songs has at most 100 rows, each one shared.
pub library_pages :
    (d : Db) (user_id : Text) (limit offset : ℤ)
    → (length (personal_songs d user_id limit offset) ≤ 100)
      × All (λ (g : Song). g.user_id ≡ user_id) (personal_songs d user_id limit offset)
      × (length (public_songs d limit offset) ≤ 100)
      × All (λ (g : Song). g.is_public ≡ true) (public_songs d limit offset)
unfolding personal_songs public_songs
library_pages d user_id limit offset = (
  page-length d (λ r. text_eq r.user_id user_id) limit offset,
  page-All (λ g. g.user_id ≡ user_id) d (λ r. text_eq r.user_id user_id) (clamp_page limit offset)
      (λ r h. text_eq_sound r.user_id user_id h),
  page-length d (λ r. r.is_public) limit offset,
  page-All (λ g. g.is_public ≡ true) d (λ r. r.is_public) (clamp_page limit offset) (λ r h. h),
)

-- The Access-scoped catalogue shows a caller who is not an administrator only their own songs,
-- the same ones as "my songs".
pub songs_scoped :
    (d : Db) (limit offset : ℤ) (a : Access)
    → a.admin ≡ false
    → songs d limit offset a ≡ personal_songs d a.user_id limit offset
unfolding songs personal_songs
songs_scoped d limit offset a user = rw user
