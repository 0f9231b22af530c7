-- ===== src/Worker/Billing/Steps.antt =====
-- internal/worker/worker.go: every part of the worker keeps the bills: the submitter, the poller with
-- all that a status leads to, and the recovery at start.
use minmaxmusic3_web.Prelude.{
  ℕ, ◌≡◌, refl, ◌⊎◌, inl, inr, Bool, true, false, ◌||◌, Option, none, some, ◌++◌, if◌then◌else◌,
  Bool-cases, Option-cases, All, Text, codes, text_eq, any_row,
}
use minmaxmusic3_web.Store.Rows.{
  Job, Song, Db, JobState, queued, submitted, running, succeeded, state_eq, Result, ok, err,
}
use minmaxmusic3_web.Store.Jobs.{bump_retries}
use minmaxmusic3_web.Store.Songs.{song_for_job, create_song}
use minmaxmusic3_web.Runpod.Json.{Json}
use minmaxmusic3_web.Runpod.Errors.{CallError, error_message, truncate}
use minmaxmusic3_web.Runpod.Client.{Client, Outcome, done, failed_with, StatusResponse}
use minmaxmusic3_web.Runpod.Output.{Output, output_of}
use minmaxmusic3_web.Worker.World.{
  World, Env, polled, called, fail, transition, each_job-keeps, client_for, no_endpoint_reason,
}
use minmaxmusic3_web.Worker.Budget.{expired}
use minmaxmusic3_web.Worker.Submit.{
  orphan, submit_one, submit_queued, fail_ambiguous_submissions, ambiguous_reason,
}
use minmaxmusic3_web.Worker.Poll.{
  Finished, finished_song, encoded, finish, bumped_store, store_failure, after_finish, complete,
  bumped_poll, classify, start, apply_status, polled_outcome, poll_client, poll_one, poll_active,
  tick, fail_if_expired, fail_expired, recover, audio_bytes,
}
use minmaxmusic3_web.Worker.Billing.{
  Unposted, Fair, polled-Fair, cancelled-Fair, fail-Fair, orphan-Fair, bump-Fair, forward-Fair,
}
use minmaxmusic3_web.Worker.Billing.Posting.{submit_one-Fair}

if-Fair : (b : Bool) (v w : World) → Fair v → Fair w → Fair (if b then v else w)
if-Fair true v w f g = f
if-Fair false v w f g = g

submit_queued-Fair : (env : Env) (w : World) → Fair w → Fair (submit_queued env w)
unfolding submit_queued
submit_queued-Fair env w h =
    if-Fair _ _ _ h (each_job-keeps Fair (submit_one env) (submit_one-Fair env) _ w h)

transition-Fair :
    (env : Env) (j : Job) (from to : JobState) (set : Job → Job) (w : World)
    → state_eq to queued ≡ false
    → ((r : Job) → (set r).state ≡ r.state)
    → Fair w
    → Fair (transition env j from to set w)
unfolding transition
transition-Fair env j from to set w leaves keeps h =
    forward-Fair env.now j.id from to set w leaves keeps h

bumped_poll-Fair :
    (env : Env) (j : Job) (e : CallError) (w : World) (m : Db × Result ℕ)
    → Fair w
    → Fair (record w { db = m.0 })
    → Fair (bumped_poll env j e w m)
unfolding bumped_poll
bumped_poll-Fair env j e w (d, ok n) h f =
    if-Fair _ _ _ (fail-Fair env j (codes "transient: " ++ error_message e) (record w { db = d }) f)
      f
bumped_poll-Fair env j e w (d, err x) h f = h

classify-Fair :
    (env : Env) (j : Job) (e : CallError) (w : World) → Fair w → Fair (classify env j e w)
unfolding classify
classify-Fair env j e w h =
    if-Fair _ _ _ (fail-Fair env j (error_message e) w h)
      (bumped_poll-Fair env j e w (bump_retries w.db env.now j.id) h (bump-Fair env j w h))

song-Fair : (w : World) (g : Song) → Fair w → Fair (record w { db = create_song w.db g })
unfolding create_song
song-Fair w g h = record {
  once = h.once;
  unposted =
      rows (Bool-cases (any_row (λ r. text_eq r.id g.id || text_eq r.job_id g.job_id) w.db.songs));
}
  where
    rows :
        (any_row (λ (r : Song). text_eq r.id g.id || text_eq r.job_id g.job_id) w.db.songs ≡ true)
          ⊎ (any_row (λ (r : Song). text_eq r.id g.id || text_eq r.job_id g.job_id) w.db.songs
              ≡ false)
        → All (Unposted w.log) (create_song w.db g).jobs
    rows (inl t) = rw (t, create_song) h.unposted
    rows (inr n) = rw (n, create_song) h.unposted

module _ (bits : Output → ℕ) where
  bumped_store-Fair :
      (env : Env) (j : Job) (why : Text) (w : World) (m : Db × Result ℕ)
      → Fair w
      → Fair (record w { db = m.0 })
      → Fair (bumped_store bits env j why w m)
  unfolding bumped_store
  bumped_store-Fair env j why w (d, ok n) h f =
      if-Fair _ _ _ (fail-Fair env j (codes "store: " ++ why) (record w { db = d }) f) f
  bumped_store-Fair env j why w (d, err x) h f = fail-Fair env j (codes "store: " ++ why) w h

  store_failure-Fair :
      (env : Env) (j : Job) (why : Text) (w : World)
      → Fair w
      → Fair (store_failure bits env j why w)
  unfolding store_failure
  store_failure-Fair env j why w h =
      bumped_store-Fair env j why w (bump_retries w.db env.now j.id) h (bump-Fair env j w h)

  encoded-Fair :
      (env : Env) (j : Job) (out : Output) (w : World) (audio : Text ⊎ Text)
      → Fair w
      → Fair (encoded bits env j out w audio).0
  unfolding encoded
  encoded-Fair env j out w (inr why) h = h
  encoded-Fair env j out w (inl audio) h = elim (Option-cases (env.encode_error j audio)) [
    | inl n ↦ rw (n, encoded) (song-Fair w (finished_song bits env j out) h)
    | inr (why, e) ↦ rw (e, encoded) h
  ]

  finish-Fair :
      (env : Env) (j : Job) (out : Output) (w : World) → Fair w → Fair (finish bits env j out w).0
  unfolding finish
  finish-Fair env j out w h = elim (Option-cases (song_for_job w.db j.id)) [
    | inl n ↦ rw (n, finish) (encoded-Fair env j out w (audio_bytes env out) h)
    | inr (g, e) ↦ rw (e, finish) h
  ]

  after_finish-Fair :
      (env : Env) (j : Job) (from : JobState) (m : Finished)
      → Fair m.0
      → Fair (after_finish bits env j from m)
  unfolding after_finish
  after_finish-Fair env j from (w, some why) h = store_failure-Fair env j why w h
  after_finish-Fair env j from (w, none) h =
      transition-Fair env j from succeeded (λ x. record x { retries = 0 }) w refl (λ r. refl) h

  complete-Fair :
      (env : Env) (j : Job) (from : JobState) (sr : StatusResponse) (w : World)
      → Fair w
      → Fair (complete bits env j from sr w)
  unfolding complete
  complete-Fair env j from sr w h = read (output_of sr)
    where
      read :
          (m : Outcome Output)
          → Fair (elim m as (λ x. World) [
            | failed_with e ↦ fail env j (codes "schema: " ++ error_message e) w
            | done out ↦ after_finish bits env j from (finish bits env j out w)
          ])
      read (failed_with e) = fail-Fair env j (codes "schema: " ++ error_message e) w h
      read (done out) =
          after_finish-Fair env j from (finish bits env j out w) (finish-Fair env j out w h)

start-state : (now : ℕ) (j r : Job) → (start now j r).state ≡ r.state
start-state now j r = elim (Option-cases j.started_at) [
  | inl n ↦ rw n refl
  | inr (t, e) ↦ rw e refl
]

module _ (bits : Output → ℕ) (render : Json → Text) where
  apply_status-Fair :
      (env : Env) (j : Job) (sr : StatusResponse) (w : World)
      → Fair w
      → Fair (apply_status bits render env j sr w)
  unfolding apply_status
  apply_status-Fair env j sr w h =
      let from = if state_eq j.state running then running else submitted in
      if-Fair _ _ _
        (transition-Fair env j from submitted (λ x. record x { retries = 0 }) w refl (λ r. refl) h)
        (if-Fair _ _ _
          (transition-Fair env j from running (start env.now j) w refl (start-state env.now j) h)
          (if-Fair _ _ _ (complete-Fair bits env j from sr w h) (
            if-Fair (text_eq sr.status (codes "FAILED")) _ _
              (fail-Fair env j (codes "worker: " ++ truncate (render sr.error)) w h)
              (if-Fair (text_eq sr.status (codes "CANCELLED")) _ _
                (fail-Fair env j (codes "cancelled") w h)
                (fail-Fair env j (codes "schema: unknown status " ++ sr.status) w h)))))

  polled_outcome-Fair :
      (env : Env) (j : Job) (w : World) (m : Outcome StatusResponse)
      → Fair w
      → Fair (polled_outcome bits render env j w m)
  unfolding polled_outcome
  polled_outcome-Fair env j w (failed_with e) h = classify-Fair env j e w h
  polled_outcome-Fair env j w (done sr) h = apply_status-Fair env j sr w h

  poll_client-Fair :
      (env : Env) (j : Job) (w : World) (c : Option Client)
      → Fair w
      → Fair (poll_client bits render env j w c)
  unfolding poll_client
  poll_client-Fair env j w none h = fail-Fair env j (no_endpoint_reason j) w h
  poll_client-Fair env j w (some c) h =
      if-Fair _ _ _ (fail-Fair env j (expired env.now j).1 _ (cancelled-Fair j.runpod_id w h)) (
        if-Fair _ _ _ h (
          polled_outcome-Fair env j (called (polled j.runpod_id) w) _
            (polled-Fair j.runpod_id w h)))

  poll_one-Fair : (env : Env) (j : Job) (w : World) → Fair w → Fair (poll_one bits render env j w)
  unfolding poll_one
  poll_one-Fair env j w h = if-Fair _ _ _ h (poll_client-Fair env j w (client_for env j) h)

  pub tick-Fair : (env : Env) (w : World) → Fair w → Fair (tick bits render env w)
  unfolding tick poll_active
  tick-Fair env w h =
      submit_queued-Fair env _
        (each_job-keeps Fair (poll_one bits render env) (poll_one-Fair env) _ w h)

fail_if_expired-Fair : (env : Env) (j : Job) (w : World) → Fair w → Fair (fail_if_expired env j w)
unfolding fail_if_expired
fail_if_expired-Fair env j w h = if-Fair _ _ _ (fail-Fair env j (expired env.now j).1 w h) h

pub recover-Fair : (env : Env) (w : World) → Fair w → Fair (recover env w)
unfolding recover fail_expired fail_ambiguous_submissions
recover-Fair env w h = each_job-keeps Fair (fail_if_expired env) (fail_if_expired-Fair env) _ _ (
    each_job-keeps Fair (λ j. orphan env j j.runpod_id ambiguous_reason)
      (λ j w' f. orphan-Fair env j j.runpod_id ambiguous_reason w' f) _ w h)
