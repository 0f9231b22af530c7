-- ===== src/Server/CoverRequests.antt =====
-- internal/server/handlers.go and cover.go: the two requests that may end in a cover, with their rate
-- limit. `too_large` says that the body of an unreadable form exceeded its bound.
use minmaxmusic3_web.Prelude.{ℕ, Bool, not, Option, none, List, if◌then◌else◌, Text, codes}
use minmaxmusic3_web.Store.Rows.{Db}
use minmaxmusic3_web.Config.{Config}
use minmaxmusic3_web.Server.RateLimit.{Limiter, allow}
use minmaxmusic3_web.Server.Site.{Site}
use minmaxmusic3_web.Server.Http.{Request, Packages, client_ip}
use minmaxmusic3_web.Server.Access.{UserContext}
use minmaxmusic3_web.Server.Generate.{JobReply, job_error, next_cover, create_job_of, limited}
use minmaxmusic3_web.Server.Covers.{Files, Upload}
use minmaxmusic3_web.Server.CoverJobs.{queue_cover, cover_song}

unfoldable pub form_error : (too_large : Bool) → JobReply
form_error too_large =
    if too_large
    then job_error 413 (codes "That upload is too large — keep the recording under 64 MB.")
    else job_error 400 (codes "Could not read that form — choose the recording again and retry.")

abbrev with_db : Site → Db × JobReply → Site × JobReply
with_db w (d, x) = (record w { db = d }, x)

module _ (pk : Packages) (fs : Files) (c : Config) (now : ℕ) (id token name : Text) (random : ℕ)
    (uc : Option UserContext) (r : Request) (uploads : Option (List Upload)) where
  -- Under the limit of generations.
  abbrev under_limit : Site → (Db → Db × JobReply) → Limiter × Bool → Site × JobReply
  under_limit w act (l, b) =
      let w' : Site = record w { gen_limiter = l } in
      if b then with_db w' (act w.db) else (w', limited)

  abbrev cover_or : (d : Db) → Db × JobReply → Db × JobReply
  cover_or d (o, next_cover) = queue_cover pk fs c d now id token name random uc r uploads none
  cover_or d (o, x) = (o, x)

  -- A new song, or a cover of a recording.
  unfoldable pub generate :
      (parse_float : Text → Option ℕ) → (engines : List Text) → Db → Db × JobReply
  unfolding create_job_of queue_cover
  generate parse_float engines d = cover_or d (create_job_of c parse_float engines d now id uc r)

  unfoldable pub handle_create_job :
      (parse_float : Text → Option ℕ)
      → (engines : List Text) → Site
      → (too_large : Bool) → Site × JobReply
  unfolding generate form_error allow client_ip
  handle_create_job parse_float engines w too_large =
      if not r.form_ok
      then (w, form_error too_large)
      else under_limit w (generate parse_float engines) (allow w.gen_limiter now (client_ip pk c r))

  unfoldable pub handle_cover_song : Site → (too_large broken : Bool) → Site × JobReply
  unfolding cover_song form_error allow client_ip
  handle_cover_song w too_large broken =
      if not r.form_ok
      then (w, form_error too_large)
      else under_limit w (λ d. cover_song pk fs c d now id token name random uc r uploads broken)
          (allow w.gen_limiter now (client_ip pk c r))
