-- ===== src/Server/Library/Pages.antt =====
-- internal/server/history.go: a page of the library is the window that it says it is.
use minmaxmusic3_web.Prelude.{
  ℕ, ◌+◌, ◌-◌, ◌*◌, ◌≤◌, min, ◌≡◌, refl, ap, ◌∙◌, ◌⊎◌, inl, inr, Bool, true, false, Option, none,
  some, List, [], ◌∷◌, map, arith, ltb, leb, if◌then◌else◌, if_cases, length, take, drop, All, Text,
  codes, text_eq, trim_space, is_empty, select, sort_by, ℤ, pos, negsuc, atoi, length-drop,
  length-lookahead, take-lookahead,
}
use minmaxmusic3_web.Store.Rows.{Song, Db}
use minmaxmusic3_web.Store.Songs.{personal_songs, public_songs, page, clamp_page}
use minmaxmusic3_web.Server.Http.{Request}
use minmaxmusic3_web.Server.Library.{
  SongCard, page_size, page_param, max_page, section_offset, SongSection, new_section,
  handle_history, clamped, personal_section, public_section, personal_songs, public_songs,
  UserContext, own_section, owns,
}

-- The rows of one half, newest first.
abbrev pub listed : Db → (Song → Bool) → List Song
listed d test = sort_by (λ (a b : Song). leb b.created_at a.created_at) (select test d.songs)

abbrev pub own_songs : Text → Song → Bool
own_songs user_id g = text_eq g.user_id user_id

map_song :
    (f : SongCard → Bool) (cs : List SongCard)
    → map (λ (c : SongCard). c.song) (map (λ (c : SongCard). record c { can_edit = f c }) cs)
      ≡ map (λ (c : SongCard). c.song) cs
map_song f [] = refl
map_song f (c ∷ cs) = ap (λ t. c.song ∷ t) (map_song f cs)

map_card :
    (gs : List Song)
    → map (λ (c : SongCard). c.song) (map (λ g. record { song = g; can_edit = false }) gs) ≡ gs
map_card [] = refl
map_card (g ∷ gs) = ap (λ t. g ∷ t) (map_card gs)

clamp-window : (l o : ℕ) → 1 ≤ l → l ≤ 100 → clamp_page (pos l) (pos o) ≡ (pos l, pos o)
unfolding clamp_page
clamp-window l o low high = ground arith

window :
    (d : Db) (test : Song → Bool) (p : ℕ)
    → page d test (clamp_page (pos (page_size + 1)) (section_offset p))
      ≡ take 21 (drop ((p - 1) * page_size) (listed d test))
unfolding page
window d test p =
    ap (page d test) (clamp-window 21 ((p - 1) * page_size) (omega arith) (omega arith))

pub page_param_bounds :
    (r : Request) (key : Text) → (1 ≤ page_param r key) × (page_param r key ≤ max_page)
unfolding page_param
page_param_bounds r key =
    if_cases Bounded (is_empty (trim_space (r.query key))) 1
      (clamped (atoi (trim_space (r.query key)))) (λ t. (omega arith, omega arith))
      (λ f. of_number (atoi (trim_space (r.query key))))
  where
    Bounded : ℕ → Type 0
    Bounded p = (1 ≤ p) × (p ≤ max_page)

    of_number : (o : Option ℤ) → (1 ≤ clamped o) × (clamped o ≤ max_page)
    of_number none = (omega arith, omega arith)
    of_number (some (negsuc n)) = (omega arith, omega arith)
    of_number (some (pos n)) = (ground arith, ground arith)

-- The page number that a query asks for: one from 1 up is itself, but at most 10000, and anything
-- else, or nothing, is page 1.
pub record Asks (r : Request) (key : Text) (p : ℕ) : Type 0 where
  pub low : 1 ≤ p
  pub high : p ≤ 10000
  pub number : (n : ℕ) → atoi (trim_space (r.query key)) ≡ some (pos n) → 1 ≤ n → p ≡ min n 10000
  pub other : ((n : ℕ) → atoi (trim_space (r.query key)) ≡ some (pos n) → n ≡ 0) → p ≡ 1

atoi-nil : (n : ℕ) → atoi [] ≡ some (pos n) → ⊥
unfolding atoi
atoi-nil n h = cc

clamped_number :
    (o : Option ℤ)
    → ((n : ℕ) → o ≡ some (pos n) → 1 ≤ n → clamped o ≡ min n 10000)
      × (((n : ℕ) → o ≡ some (pos n) → n ≡ 0) → clamped o ≡ 1)
clamped_number none = ((λ n e low. cc), λ h. refl)
clamped_number (some (negsuc m)) = ((λ n e low. cc), λ h. refl)
clamped_number (some (pos m)) = ((λ n e low. ground arith), λ h. ground (arith, h m refl))

page_param-Asks : (r : Request) (key : Text) → Asks r key (page_param r key)
unfolding page_param
page_param-Asks r key = record {
  low = (page_param_bounds r key).0;
  high = (page_param_bounds r key).1;
  number = λ n e low. elim (Text-cases (trim_space (r.query key))) [
    | inl t ↦ absurd (atoi-nil n (rw t at e))
    | inr f ↦ rw f ((clamped_number (atoi (trim_space (r.query key)))).0 n e low)
  ];
  other = λ h.
      if_cases (λ p. p ≡ 1) (is_empty (trim_space (r.query key))) _ _ (λ t. refl)
        (λ f. (clamped_number (atoi (trim_space (r.query key)))).1 h);
}
  where
    Text-cases : (t : Text) → (t ≡ []) ⊎ (is_empty t ≡ false)
    Text-cases [] = inl refl
    Text-cases (c ∷ t) = inr refl

-- The section is page `p` of `all`: its songs, and whether there are pages before and after it.
abbrev pub Shows : SongSection → (p : ℕ) → (all : List Song) → Type 0
Shows sec p all =
    (map (λ (c : SongCard). c.song) sec.songs ≡ take page_size (drop ((p - 1) * page_size) all))
    × (sec.has_prev ≡ ltb 1 p)
    × (sec.has_next ≡ ltb (p * page_size) (length all))

more :
    (p : ℕ) (all : List Song)
    → 1 ≤ p
    → ltb 20 (length (drop ((p - 1) * page_size) all)) ≡ ltb (p * page_size) (length all)
more p all h = ground (arith, length-drop ((p - 1) * page_size) all)

new_section-Shows :
    (kind heading empty : Text) (p : ℕ) (rows all : List Song) (owner : Bool) (f : SongCard → Bool)
    → 1 ≤ p
    → rows ≡ take 21 (drop ((p - 1) * page_size) all)
    → Shows
        (record (new_section kind heading p rows empty) {
          show_owner_columns = owner;
          songs =
              map
                (λ (c : SongCard). record c { can_edit = f c })
                (new_section kind heading p rows empty).songs;
        })
        p
        all
unfolding new_section
new_section-Shows kind heading empty p rows all owner f h e = (
  map_song f _
      ∙ map_card _
      ∙ ap (λ (gs : List Song). if ltb page_size (length gs) then take page_size gs else gs) e
      ∙ take-lookahead 20 (drop ((p - 1) * page_size) all),
  refl,
  ap (λ (gs : List Song). ltb page_size (length gs)) e
      ∙ length-lookahead 20 (drop ((p - 1) * page_size) all)
      ∙ more p all h,
)

own_cards :
    (cs : List SongCard)
    → All
        (λ (c : SongCard). c.can_edit ≡ true)
        (map (λ (c : SongCard). record c { can_edit = true }) cs)
own_cards [] = tt
own_cards (c ∷ cs) = (refl, own_cards cs)

-- What the page of the library holds.
abbrev pub ShowsLibrary : Db → UserContext → Request → Type 0
ShowsLibrary d uc r =
    (p : ℕ) × (q : ℕ) × (mine : SongSection) × (shared : SongSection) × Asks r (codes "mine") p
    × Asks r (codes "public") q
    × (handle_history d (some uc) r ≡ some (mine, shared))
    × Shows mine p (listed d (own_songs uc.user_id))
    × All (λ (c : SongCard). c.can_edit ≡ true) mine.songs
    × Shows shared q (listed d (λ g. g.is_public))

-- The library page of a signed-in caller shows, under "My Songs" and "Community Songs", exactly the
-- window of the page number that was asked for, of the caller's own songs and of the shared ones,
-- newest first and twenty to a page; each half offers an older page exactly when there is one, and
-- every song of the caller's own half can be edited. The number asked for is that of the query, cut
-- at 10000, and 1 where the query has none from 1 up.
pub handle_history-Shows : (d : Db) (uc : UserContext) (r : Request) → ShowsLibrary d uc r
unfolding handle_history personal_section public_section personal_songs public_songs
handle_history-Shows d uc r =
    let mine = page_param-Asks r (codes "mine") in
    let shared = page_param-Asks r (codes "public") in
    let p = page_param r (codes "mine") in
    let q = page_param r (codes "public") in
    (
      p,
      q,
      own_section d p uc,
      public_section d (some uc) q,
      mine,
      shared,
      refl,
      new_section-Shows [] [] [] p _ _ true (λ c. true) mine.low
          (window d (own_songs uc.user_id) p),
      own_cards _,
      new_section-Shows [] [] [] q _ _ false (λ c. owns (some uc) c.song) shared.low
          (window d (λ g. g.is_public) q),
    )
