-- ===== src/Worker/Poll.antt =====
-- internal/worker/worker.go, the poller: what each status does to a job, the finishing of a
-- completed one, and the recovery at start.
use minmaxmusic3_web.Prelude.{
  ℕ, zero, suc, ◌+◌, ◌*◌, ◌⊎◌, inl, inr, Bool, false, ◌&&◌, ◌||◌, not, Option, none, some, List, [],
  ◌∷◌, ◌++◌, ltb, leb, ◌==◌, if◌then◌else◌, Text, codes, text_eq, is_empty,
}
use minmaxmusic3_web.Store.Rows.{
  Db, Job, Song, JobState, submitted, running, succeeded, state_eq, Result, ok, err,
}
use minmaxmusic3_web.Store.Jobs.{bump_retries, active_jobs}
use minmaxmusic3_web.Store.Songs.{song_for_job, create_song}
use minmaxmusic3_web.Store.Links.{purge_expired_cover_links, purge_stale_cover_uploads}
use minmaxmusic3_web.Runpod.Json.{Json}
use minmaxmusic3_web.Runpod.Errors.{CallError, error_message, is_permanent, truncate}
use minmaxmusic3_web.Runpod.Client.{Client, Outcome, done, failed_with, StatusResponse, status}
use minmaxmusic3_web.Runpod.Output.{Output, output_of, inline_b64, delivery_s3, delivery_base64}
use minmaxmusic3_web.Worker.Budget.{expired, poll_delay, max_transient, max_store_retries, minute}
use minmaxmusic3_web.Worker.Payload.{engine_of, mode_of, cot_of, title_of}
use minmaxmusic3_web.Worker.World.{
  World, Env, polled, cancelled, called, client_for, fail, transition, each_job, no_endpoint_reason,
  Fetched, bytes, http_status, no_reply,
}
use minmaxmusic3_web.Worker.Submit.{submit_queued, fail_ambiguous_submissions}

-- 408 and 429 invite a retry, every other 4xx is a decision.
unfoldable pub permanent_fetch : Fetched → Bool
permanent_fetch (http_status code) =
    not ((code == 408) || (code == 429)) && (leb 400 code && ltb code 500)
permanent_fetch _ = false

abbrev pub fetch_attempts : ℕ
fetch_attempts = 4

-- `left` attempts remain; the failure answered is a text.
unfoldable pub fetch_from : (left : ℕ) → (attempt : ℕ → Fetched) → (k : ℕ) → Option Text
fetch_from zero attempt k = none
fetch_from (suc left) attempt k =
    let rest = fetch_from left attempt (k + 1) in
    elim (attempt k) [
      | bytes b ↦ some b
      | http_status code ↦ if permanent_fetch (http_status code) then none else rest
      | no_reply cause ↦ rest
    ]

unfoldable pub fetch : Env → (url : Text) → Option Text
unfolding fetch_from
fetch env url = fetch_from fetch_attempts (env.fetch_once url) 1

-- The finished audio, however it was delivered; the kind of failure on the right.
unfoldable pub audio_bytes : Env → Output → Text ⊎ Text
audio_bytes env out =
    if text_eq out.delivery delivery_s3
    then elim (fetch env out.audio_url) [ some b ↦ inl b | none ↦ inr (codes "fetching s3 audio") ]
    else if text_eq out.delivery delivery_base64
    then elim (env.decode_base64 (inline_b64 out)) [
      | some b ↦ inl b
      | none ↦ inr (codes "decoding base64 audio")
    ]
    else inr (codes "unknown delivery " ++ out.delivery)

abbrev or_empty : Option Text → Text
or_empty none = []
or_empty (some t) = t

-- A score that cannot be fetched is not fatal.
unfoldable pub score_of : Env → Output → Text
score_of env out = if is_empty out.score_abc_url then [] else or_empty (fetch env out.score_abc_url)

abbrev pub song_path : Env → Job → Text
song_path env j = env.audio_dir ++ 47 ∷ env.song_id j ++ codes ".m4a"

-- The job's seed and times are numbers; so is the bit pattern of the reported duration, which
-- `duration_bits` gives.
unfoldable pub finished_song : (duration_bits : Output → ℕ) → Env → Job → Output → Song
finished_song duration_bits env j out = record {
  id = env.song_id j;
  job_id = j.id;
  user_id = j.user_id;
  is_public = false;
  lyrics = j.lyrics;
  caption = j.caption;
  idea = j.idea;
  duration = duration_bits out;
  seed = j.seed;
  engine = engine_of j out;
  delivery = out.delivery;
  audio_path = song_path env j;
  title = title_of j;
  mode = mode_of j out;
  cot = cot_of j out;
  score_abc = score_of env out;
  source_song_id = j.source_song_id;
  truncated = out.truncated;
  created_at = env.now;
}

-- What finish leaves: the world, and the reason when it failed.
abbrev pub Finished : Type 0
Finished = World × Option Text

unfoldable pub bumped_poll : Env → Job → CallError → World → Db × Result ℕ → World
bumped_poll env j e w (d, err x) = w
bumped_poll env j e w (d, ok n) =
    let w' = record w { db = d } in
    if leb max_transient n then fail env j (codes "transient: " ++ error_message e) w' else w'

unfoldable pub classify : Env → Job → CallError → World → World
unfolding bumped_poll
classify env j e w =
    if is_permanent e
    then fail env j (error_message e) w
    else bumped_poll env j e w (bump_retries w.db env.now j.id)

abbrev pub start : ℕ → Job → Job → Job
start now j x = elim j.started_at [
  | none ↦ record x { retries = 0; started_at = some now }
  | some t ↦ record x { retries = 0 }
]

module _ (duration_bits : Output → ℕ) where
  unfoldable pub encoded : Env → Job → Output → World → Text ⊎ Text → Finished
  encoded env j out w (inr why) = (w, some why)
  encoded env j out w (inl audio) = elim (env.encode_error j audio) [
    | some why ↦ (w, some (codes "transcoding audio to m4a: " ++ why))
    | none ↦ (record w { db = create_song w.db (finished_song duration_bits env j out) }, none)
  ]

  -- Idempotent: a job that has its song is finished.
  unfoldable pub finish : Env → Job → Output → World → Finished
  unfolding encoded
  finish env j out w = elim (song_for_job w.db j.id) [
    | some g ↦ (w, none)
    | none ↦ encoded env j out w (audio_bytes env out)
  ]

  unfoldable pub bumped_store : Env → Job → Text → World → Db × Result ℕ → World
  bumped_store env j why w (d, err x) = fail env j (codes "store: " ++ why) w
  bumped_store env j why w (d, ok n) =
      let w' = record w { db = d } in
      if leb max_store_retries n then fail env j (codes "store: " ++ why) w' else w'

  unfoldable pub store_failure : Env → Job → Text → World → World
  unfolding bumped_store
  store_failure env j why w = bumped_store env j why w (bump_retries w.db env.now j.id)

  unfoldable pub after_finish : Env → Job → JobState → Finished → World
  after_finish env j from (w, some why) = store_failure env j why w
  after_finish env j from (w, none) =
      transition env j from succeeded (λ x. record x { retries = 0 }) w

  -- The song is stored before the job is marked.
  unfoldable pub complete : Env → Job → JobState → StatusResponse → World → World
  unfolding after_finish
  complete env j from sr w = elim (output_of sr) [
    | failed_with e ↦ fail env j (codes "schema: " ++ error_message e) w
    | done out ↦ after_finish env j from (finish env j out w)
  ]

  -- `render` is json.Marshal of the error field, without its quotes.
  module _ (render : Json → Text) where
    unfoldable pub apply_status : Env → Job → StatusResponse → World → World
    apply_status env j sr w =
        let from = if state_eq j.state running then running else submitted in
        if text_eq sr.status (codes "IN_QUEUE")
        then transition env j from submitted (λ x. record x { retries = 0 }) w
        else if text_eq sr.status (codes "IN_PROGRESS")
        then transition env j from running (start env.now j) w
        else if text_eq sr.status (codes "COMPLETED")
        then complete env j from sr w
        else if text_eq sr.status (codes "FAILED")
        then fail env j (codes "worker: " ++ truncate (render sr.error)) w
        else if text_eq sr.status (codes "CANCELLED")
        then fail env j (codes "cancelled") w
        else fail env j (codes "schema: unknown status " ++ sr.status) w

    unfoldable pub polled_outcome : Env → Job → World → Outcome StatusResponse → World
    polled_outcome env j w (failed_with e) = classify env j e w
    polled_outcome env j w (done sr) = apply_status env j sr w

    unfoldable pub poll_client : Env → Job → World → Option Client → World
    unfolding polled_outcome
    poll_client env j w none = fail env j (no_endpoint_reason j) w
    poll_client env j w (some c) =
        if (expired env.now j).0
        then fail env j (expired env.now j).1 (called (cancelled j.runpod_id) w)
        else if ltb env.now (j.updated_at + poll_delay env.now j)
        then w
        else polled_outcome env j (called (polled j.runpod_id) w)
            (status c (env.status_net j) j.runpod_id)

    unfoldable pub poll_one : Env → Job → World → World
    unfolding poll_client
    poll_one env j w = if is_empty j.runpod_id then w else poll_client env j w (client_for env j)

    unfoldable pub poll_active : Env → World → World
    poll_active env w = each_job (poll_one env) (active_jobs w.db) w

    -- One round of Run's loop.
    unfoldable pub tick : Env → World → World
    tick env w = submit_queued env (poll_active env w)

unfoldable pub fail_if_expired : Env → Job → World → World
fail_if_expired env j w = if (expired env.now j).0 then fail env j (expired env.now j).1 w else w

unfoldable pub fail_expired : Env → World → World
unfolding fail_if_expired
fail_expired env w = each_job (fail_if_expired env) (active_jobs w.db) w

-- What Run does before its loop.
unfoldable pub recover : Env → World → World
recover env w = fail_expired env (fail_ambiguous_submissions env w)

abbrev pub upload_ttl : ℕ
upload_ttl = 24 * (60 * minute)

-- The janitor's sweep, and the names whose files it unlinks.
unfoldable pub sweep_once : Env → World → World × List Text
sweep_once env w =
    let d = (purge_expired_cover_links w.db env.now).0 in
    let (d', names) = purge_stale_cover_uploads d env.now upload_ttl in
    (record w { db = d' }, names)
