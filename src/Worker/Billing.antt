-- ===== src/Worker/Billing.antt =====
-- internal/worker/worker.go: a submission that RunPod may have accepted is never repeated. The
-- invariant of the log and the job rows, and that every write of the worker keeps it.
pub mod Life
pub mod Posting
pub mod Steps
use minmaxmusic3_web.Prelude.{
  ℕ, suc, ◌≤◌, ◌≡◌, refl, ap, Bool, true, false, ◌&&◌, ◌||◌, not, List, [], ◌∷◌, arith, ◌==◌,
  if◌then◌else◌, All, Text, text_eq,
}
use minmaxmusic3_web.Store.Rows.{Job, JobState, queued, cancelled, rank, state_eq}
use minmaxmusic3_web.Store.Jobs.{transition_job, bump_retries}
use minmaxmusic3_web.Runpod.Errors.{
  CallError, no_endpoint, no_api_key, no_job_id, api, decode_error, worker_error, transport,
  is_retryable_submit,
}
use minmaxmusic3_web.Runpod.Client.{Outcome, done, failed_with}
use minmaxmusic3_web.Worker.World.{World, Env, Call, posted, polled, cancelled, called, fail}
use minmaxmusic3_web.Worker.Rows.{transition-Every, fail-Every, orphan-Every, bump-Every}
use minmaxmusic3_web.Worker.Submit.{orphan}

-- What is assumed of RunPod, and of nothing else: that it enqueued nothing when it answers 409, 429
-- or 503, or a 2xx without a job id. A call that lacks its endpoint or key is not even sent.
abbrev pub enqueues_nothing : CallError → Bool
enqueues_nothing no_endpoint = true
enqueues_nothing no_api_key = true
enqueues_nothing no_job_id = true
enqueues_nothing (api code body) = (code == 409) || (code == 429) || (code == 503)
enqueues_nothing (decode_error path cause) = false
enqueues_nothing (worker_error message) = false
enqueues_nothing (transport cause) = false

-- RunPod may have enqueued, and will bill, any other post: one that timed out or lost its
-- connection, and one that was answered 500 or 504, too.
abbrev pub billable : Outcome Text → Bool
billable (done rid) = true
billable (failed_with e) = not (enqueues_nothing e)

abbrev billed : Text → Call → Bool
billed id (posted k o) = text_eq k id && billable o
billed id _ = false

-- How many posts of a job RunPod may have accepted.
unfoldable pub bill : Text → List Call → ℕ
bill id [] = 0
bill id (c ∷ cs) = if billed id c then suc (bill id cs) else bill id cs

-- What the worker posts again was not enqueued.
pub retryable_unbilled :
    (e : CallError) → is_retryable_submit e ≡ true → billable (failed_with e) ≡ false
unfolding is_retryable_submit
retryable_unbilled no_endpoint h = refl
retryable_unbilled no_api_key h = refl
retryable_unbilled no_job_id h = refl
retryable_unbilled (api code body) h = ground arith
retryable_unbilled (decode_error path cause) h = cc
retryable_unbilled (worker_error message) h = cc
retryable_unbilled (transport cause) h = cc

-- A job that waits in the queue has none.
abbrev pub Unposted : List Call → Job → Type 0
Unposted log r = state_eq r.state queued ≡ true → bill r.id log ≡ 0

pub record Fair (w : World) : Type 0 where
  pub once : (id : Text) → bill id w.log ≤ 1
  pub unposted : All (Unposted w.log) w.db.jobs

-- Calls that post nothing leave the bills as they are.
pub polled-Fair : (rid : Text) (w : World) → Fair w → Fair (called (polled rid) w)
unfolding bill
polled-Fair rid w h = record { once = h.once; unposted = h.unposted }

pub cancelled-Fair : (rid : Text) (w : World) → Fair w → Fair (called (cancelled rid) w)
unfolding bill
cancelled-Fair rid w h = record { once = h.once; unposted = h.unposted }

pub fail-Fair :
    (env : Env) (j : Job) (reason : Text) (w : World) → Fair w → Fair (fail env j reason w)
unfolding fail
fail-Fair env j reason w h = record {
  once = h.once;
  unposted =
      fail-Every (Unposted w.log) w.db env.now j.id reason (λ r t p. λ q. absurd (ground arith))
        h.unposted;
}

pub orphan-Fair :
    (env : Env) (j : Job) (rid reason : Text) (w : World)
    → Fair w
    → Fair (orphan env j rid reason w)
unfolding orphan
orphan-Fair env j rid reason w h = record {
  once = h.once;
  unposted =
      orphan-Every (Unposted w.log) w.db env.now j.id rid reason
        (λ r t p. λ q. absurd (ground arith)) h.unposted;
}

pub bump-Fair :
    (env : Env) (j : Job) (w : World)
    → Fair w
    → Fair (record w { db = (bump_retries w.db env.now j.id).0 })
bump-Fair env j w h = record {
  once = h.once;
  unposted = bump-Every (Unposted w.log) w.db env.now j.id (λ r t p. p) h.unposted;
}

-- A change of state that is not back to the queue.
pub forward-Fair :
    (now : ℕ) (id : Text) (from to : JobState) (set : Job → Job) (w : World)
    → state_eq to queued ≡ false
    → ((r : Job) → (set r).state ≡ r.state)
    → Fair w
    → Fair (record w { db = (transition_job w.db now id from to set).0 })
forward-Fair now id from to set w leaves keeps h = record {
  once = h.once;
  unposted =
      transition-Every (Unposted w.log) w.db now id from to set
        (λ r t p. λ q. absurd (
          clash (set (record r { state = to; updated_at = now })).state
            (ap rank (keeps (record r { state = to; updated_at = now }))) q))
        h.unposted;
}
  where
    clash : (x : JobState) → rank x ≡ rank to → state_eq x queued ≡ true → ⊥
    clash x e q = ground arith
