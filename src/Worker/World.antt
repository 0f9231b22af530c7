-- ===== src/Worker/World.antt =====
-- internal/worker/worker.go: what the worker acts on. The database is the store's; the log holds the
-- calls that left the process, latest first. What the network, the encoder and the random source
-- answer is an argument, one Env for a pass of the loop, whose calls of the clock all read `now`.
use minmaxmusic3_web.Prelude.{ℕ, Option, List, [], ◌∷◌, ◌++◌, Text, codes}
use minmaxmusic3_web.Store.Rows.{Db, Job, JobState}
use minmaxmusic3_web.Store.Jobs.{transition_job, fail_job}
use minmaxmusic3_web.Runpod.Client.{Client, Wire, Outcome}
use minmaxmusic3_web.Worker.Payload.{Payload}

pub data Call : Type 0 where
  posted : (job_id : Text) → Outcome Text → Call
  polled : (runpod_id : Text) → Call
  cancelled : (runpod_id : Text) → Call

pub record World : Type 0 where
  pub db : Db
  pub log : List Call

-- One download attempt: the bytes, a status other than 200, or no answer.
pub data Fetched : Type 0 where
  bytes : Text → Fetched
  http_status : (code : ℕ) → Fetched
  no_reply : (cause : Text) → Fetched

pub record Env : Type 0 where
  pub now : ℕ
  pub max_in_flight : ℕ
  pub client : (engine : Text) → Option Client
  pub run_net : Job → Payload → Text → Wire
  pub status_net : Job → Text → Wire
  pub fetch_once : (url : Text) → (attempt : ℕ) → Fetched
  pub decode_base64 : Text → Option Text
  -- The directory, the song's new id, and whether encoding to its path fails.
  pub audio_dir : Text
  pub song_id : Job → Text
  pub encode_error : Job → Text → Option Text

unfoldable pub client_for : Env → Job → Option Client
client_for env j = env.client j.engine

abbrev pub called : Call → World → World
called c w = record w { log = c ∷ w.log }

-- recordFailure and fail: a job that is already terminal stays as it is.
unfoldable pub fail : Env → Job → (reason : Text) → World → World
fail env j reason w = record w { db = (fail_job w.db env.now j.id reason).0 }

-- Losing the compare-and-set is normal.
unfoldable pub transition : Env → Job → (from to : JobState) → (Job → Job) → World → World
transition env j from to set w = record w { db = (transition_job w.db env.now j.id from to set).0 }

abbrev pub no_endpoint_reason : Job → Text
no_endpoint_reason j = codes "config: no endpoint configured for engine " ++ j.engine

-- A loop over a list of jobs, read before the loop.
unfoldable pub each_job : (Job → World → World) → List Job → World → World
each_job step [] w = w
each_job step (j ∷ js) w = each_job step js (step j w)

-- What a loop's rounds keep, the loop keeps.
pub each_job-keeps {κ} :
    (P : World → Type κ) (step : Job → World → World)
    → ((j : Job) (w : World) → P w → P (step j w))
    → (js : List Job) (w : World) → P w
    → P (each_job step js w)
unfolding each_job
each_job-keeps P step keep [] w h = h
each_job-keeps P step keep (j ∷ js) w h = each_job-keeps P step keep js (step j w) (keep j w h)
