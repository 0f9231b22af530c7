-- ===== src/Worker/Tests.antt =====
-- The worker and the job states at a database with one queued job, and a network that refuses once.
use minmaxmusic3_web.Worker.Ending.{fail_expired-Ended}
use minmaxmusic3_web.Prelude.{
  ℕ, ◌+◌, ◌*◌, ◌≤◌, ◌<◌, ◌≡◌, refl, ◌≢◌, ◌↔◌, inl, inr, true, false, none, some, [], ◌∷◌, All, Has,
  Text, codes, text_eq, select, update, count_rows, sort_by,
}
use minmaxmusic3_web.Store.Rows.{
  Job, Db, queued, submitting, running, failed, engine_yue2, mode_cover, err_transition, err,
  submitted, is_terminal,
}
use minmaxmusic3_web.Store.Jobs.{
  transition_job, fail_job, orphan_submission, active_jobs, jobs_by_state,
}
use minmaxmusic3_web.Store.Jobs.Terminal.{terminal_rows_stay, transition_once}
use minmaxmusic3_web.Runpod.Json.{Json}
use minmaxmusic3_web.Runpod.Client.{answer}
use minmaxmusic3_web.Runpod.Output.{Output}
use minmaxmusic3_web.Worker.Budget.{
  minute, expired, submit_delay, spaced, submit_delay_lem, expired_exact,
}
use minmaxmusic3_web.Worker.Payload.{yue2_request, cot_off, request_accepted}
use minmaxmusic3_web.Worker.World.{World, Env, http_status, fail, each_job}
use minmaxmusic3_web.Worker.Poll.{tick, recover, fail_expired, fail_if_expired}
use minmaxmusic3_web.Worker.Billing.{bill, Unposted}
use minmaxmusic3_web.Worker.Billing.Life.{ticked, restarted, here, next, no_double_billing}

abbrev waiting : Job
waiting = record {
  id = codes "j1";
  state = queued;
  runpod_id = [];
  user_id = codes "u1";
  lyrics = codes "la";
  caption = codes "pop";
  engine = engine_yue2;
  mode = mode_cover;
  cot = cot_off;
  abc = codes "K:C";
  source_audio = codes "u";
  source_song_id = [];
  instrumental = true;
  cfg_scale = none;
  idea = [];
  title = [];
  duration = 0;
  seed = none;
  error = [];
  retries = 0;
  created_at = 0;
  started_at = none;
  updated_at = 0;
}

abbrev over : Job
over = record waiting { id = codes "j0"; state = failed }

abbrev queue : Db
queue = record {
  jobs = over ∷ waiting ∷ [];
  songs = [];
  users = [];
  sessions = [];
  cover_links = [];
  cover_uploads = [];
}

abbrev paused : Env
paused = record {
  now = minute;
  max_in_flight = 2;
  client = λ e. some (record { endpoint = codes "https://h/"; api_key = codes "k" });
  run_net = λ j p a. answer 409 (codes "paused") none;
  status_net = λ j a. answer 409 (codes "paused") none;
  fetch_once = λ u k. http_status 404;
  decode_base64 = λ t. none;
  audio_dir = codes "/data/audio";
  song_id = λ j. codes "s1";
  encode_error = λ j t. none;
}

abbrev no_bits : Output → ℕ
no_bits o = 0

abbrev unrendered : Json → Text
unrendered v = []

abbrev started : World
started = record { db = queue; log = [] }

no_double_billing_example :
    let w = recover paused (tick no_bits unrendered paused started) in
    ((id : Text) → bill id w.log ≤ 1) × All (Unposted w.log) w.db.jobs
no_double_billing_example =
    no_double_billing no_bits unrendered queue
      (recover paused (tick no_bits unrendered paused started))
      (next (next here (ticked paused)) (restarted paused))

submit_delay_example :
    (submit_delay 0 ≡ 0) × (submit_delay 3 ≡ spaced 2) × (submit_delay 2 ≤ submit_delay 3)
submit_delay_example = submit_delay_lem 2

expired_example :
    (waiting.started_at ≡ none → (((expired minute waiting).0 ≡ true) ↔ (0 + 45 * minute < minute)))
    × ((t : ℕ)
        → waiting.started_at ≡ some t
        → (waiting.engine ≢ codes "yue2"
            → (((expired minute waiting).0 ≡ true) ↔ (t + 8 * minute < minute)))
          × (waiting.engine ≡ codes "yue2"
              → waiting.mode ≡ codes "cover"
              → (((expired minute waiting).0 ≡ true) ↔ (t + 45 * minute < minute)))
          × (waiting.engine ≡ codes "yue2"
              → waiting.mode ≢ codes "cover"
              → (((expired minute waiting).0 ≡ true) ↔ (t + 20 * minute < minute))))
expired_example = expired_exact minute waiting

request_example :
    let r = yue2_request waiting in
    ((r.style ≡ codes "pop")
      × (r.lyrics ≡ codes "la")
      × (r.seed ≡ none)
      × (r.cfg_scale ≡ none)
      × (r.source_audio ≡ codes "u")
      × (r.abc ≡ codes "K:C"))
    × ((waiting.mode ≡ codes "create" → r.mode ≡ [])
        × (waiting.mode ≢ codes "create" → r.mode ≡ waiting.mode))
    × (r.abc ≢ [] → r.cot ≢ codes "off")
    × (waiting.abc ≡ [] → r.cot ≡ waiting.cot)
    × (waiting.cot ≢ codes "off" → r.cot ≡ waiting.cot)
    × (waiting.mode ≡ codes "cover" → r.instrumental ≡ false)
    × (waiting.mode ≢ codes "cover" → r.instrumental ≡ waiting.instrumental)
request_example = request_accepted waiting

terminal_example :
    Has over (transition_job queue 5 (codes "j0") queued running (λ x. x)).0.jobs
    × Has over (fail_job queue 5 (codes "j0") (codes "late")).0.jobs
    × Has over (orphan_submission queue 5 (codes "j0") (codes "r") (codes "late")).0.jobs
terminal_example =
    terminal_rows_stay queue over 5 (codes "j0") (codes "r") (codes "late") queued running (λ x. x)
      (inl refl) refl refl

abbrev claimed_queue : Db
claimed_queue = record queue {
  jobs = over ∷ record waiting { state = submitting; updated_at = 5 } ∷ [];
}

transition_once_example :
    transition_job claimed_queue 6 (codes "j1") queued submitting (λ x. x)
    ≡ (claimed_queue, err err_transition)
unfolding transition_job count_rows update text_eq
transition_once_example =
    transition_once queue claimed_queue 5 6 (codes "j1") queued submitting (λ x. x) (λ x. x)
      (λ r. refl) refl refl

abbrev late_job : Job
late_job = record waiting { state = submitted; runpod_id = codes "r1" }

abbrev late : World
late = record { db = record queue { jobs = over ∷ late_job ∷ [] }; log = [] }

abbrev next_day : Env
next_day = record paused { now = 1440 * minute }

abbrev timed_out : Job
timed_out = record late_job {
  state = failed;
  error = codes "timeout: no GPU capacity within 45m0s";
  updated_at = 1440 * minute;
}

fail_expired_example : is_terminal timed_out.state ≡ true
unfolding expired active_jobs jobs_by_state sort_by select fail_expired fail_if_expired fail
    fail_job update count_rows each_job text_eq
fail_expired_example =
    fail_expired-Ended next_day late late_job timed_out (inl refl) refl (inr (inl refl)) refl
