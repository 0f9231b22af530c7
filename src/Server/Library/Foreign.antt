-- ===== src/Server/Library/Foreign.antt =====
-- internal/server/history.go: the requests that change a song, from a caller who may not see it.
use minmaxmusic3_web.Store.Songs.Ownership.{outsider_changes_nothing}
use minmaxmusic3_web.Prelude.{
  ◌≡◌, refl, sym, ap, ◌∙◌, Bool, true, not, Option, none, some, [], if◌then◌else◌, if_cases, Text,
  codes, trim_space, is_empty, first,
}
use minmaxmusic3_web.Store.Rows.{Db}
use minmaxmusic3_web.Store.Songs.{song}
use minmaxmusic3_web.Server.Http.{
  Request, Packages, Reply, plain_error, is_htmx, not_found, not_found_to,
}
use minmaxmusic3_web.Server.Access.{UserContext, caller}
use minmaxmusic3_web.Server.Library.{
  handle_toggle_song_public, handle_update_song_title, handle_delete_song, cut_title, removed,
  set_public, Toggled, parse_bool_field, answered, renamed, toggled,
}

-- A database with no rows.
abbrev pub empty_db : Db
empty_db = record {
  jobs = [];
  songs = [];
  users = [];
  sessions = [];
  cover_links = [];
  cover_uploads = [];
}

-- The answers that need no song.
abbrev unshared : Option Bool → Toggled
unshared none =
    answered
      (plain_error 400 (codes "Send public=1 to share this song or public=0 to make it private."))
unshared (some public) = answered not_found

abbrev untoggled : Request → Toggled
untoggled r =
    if not r.form_ok
    then answered (plain_error 400 (codes "Could not read that form."))
    else unshared (parse_bool_field (r.form (codes "public")))

abbrev unrenamed : Request → Reply
unrenamed r =
    if is_empty (trim_space (r.form (codes "title")))
    then plain_error 400 (codes "Title cannot be empty.")
    else not_found

abbrev undeleted : Request → Reply
undeleted r = if is_htmx r then not_found_to (codes "/history") else not_found

module _ (d : Db) (uc : Option UserContext) (r : Request)
    (hidden : song d r.path_id (caller uc) ≡ none) where
  set_public-hidden : (o : Option Bool) → set_public d uc r o ≡ (d, unshared o)
  set_public-hidden none = refl
  set_public-hidden (some public) =
      ap (toggled r) (outsider_changes_nothing d r.path_id [] public (caller uc) hidden).1

  toggle-hidden : handle_toggle_song_public d uc r ≡ (d, untoggled r)
  unfolding handle_toggle_song_public
  toggle-hidden =
      if_cases (λ p. p ≡ (d, untoggled r)) (not r.form_ok) _ _ (λ t. rw t refl)
        (λ f. rw f (set_public-hidden (parse_bool_field (r.form (codes "public")))))

  title-hidden : handle_update_song_title d uc r ≡ (d, unrenamed r)
  unfolding handle_update_song_title
  title-hidden =
      let title = cut_title (trim_space (r.form (codes "title"))) in
      if_cases (λ p. p ≡ (d, unrenamed r)) (is_empty (trim_space (r.form (codes "title")))) _ _
        (λ t. rw t refl)
        (λ f. rw f (
          ap (renamed title)
            (outsider_changes_nothing d r.path_id title true (caller uc) hidden).2))

  delete-hidden : (pk : Packages) → handle_delete_song pk d uc r ≡ (d, undeleted r, [])
  unfolding handle_delete_song
  delete-hidden pk =
      ap (removed pk r) (outsider_changes_nothing d r.path_id [] true (caller uc) hidden).0

module _ (pk : Packages) (d : Db) (uc : Option UserContext) (r : Request) where
  -- The three requests, each with the reply of the empty library.
  abbrev pub LeavesAlone : Type 0
  LeavesAlone =
      (handle_delete_song pk d uc r ≡ (d, (handle_delete_song pk empty_db uc r).1, []))
      × (handle_toggle_song_public d uc r ≡ (d, (handle_toggle_song_public empty_db uc r).1))
      × (handle_update_song_title d uc r ≡ (d, (handle_update_song_title empty_db uc r).1))

  -- A caller who may not see a song cannot delete, share, unshare or rename it, and is told what an
  -- empty library would tell: the answer does not confirm that the song exists.
  pub foreign_song-LeavesAlone : song d r.path_id (caller uc) ≡ none → LeavesAlone
  unfolding song first
  foreign_song-LeavesAlone hidden = (
    delete-hidden d uc r hidden pk
        ∙ ap (λ x. (d, x, []))
            (ap (λ (p : Db × Reply × Text). p.1) (sym (delete-hidden empty_db uc r refl pk))),
    toggle-hidden d uc r hidden
        ∙ ap (λ x. (d, x))
            (ap (λ (p : Db × Toggled). p.1) (sym (toggle-hidden empty_db uc r refl))),
    title-hidden d uc r hidden
        ∙ ap (λ x. (d, x)) (ap (λ (p : Db × Reply). p.1) (sym (title-hidden empty_db uc r refl))),
  )
