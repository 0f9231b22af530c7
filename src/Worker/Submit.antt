-- ===== src/Worker/Submit.antt =====
-- internal/worker/worker.go, the submitter: claim, post, and what a failed post means.
use minmaxmusic3_web.Prelude.{
  ℕ, ◌+◌, ◌-◌, not, none, some, [], ◌++◌, ltb, ◌==◌, if◌then◌else◌, length, Text, codes, is_empty,
}
use minmaxmusic3_web.Store.Rows.{Db, Job, queued, submitting, submitted, Result, ok, err}
use minmaxmusic3_web.Store.Jobs.{
  transition_job, orphan_submission, bump_retries, dequeue_queued, active_jobs, submitting_jobs,
}
use minmaxmusic3_web.Runpod.Errors.{CallError, error_message, is_retryable_submit, is_permanent}
use minmaxmusic3_web.Runpod.Client.{Client, Outcome, done, failed_with, submit}
use minmaxmusic3_web.Worker.Budget.{expired, submit_delay}
use minmaxmusic3_web.Worker.Payload.{request_for}
use minmaxmusic3_web.Worker.World.{
  World, Env, posted, cancelled, called, client_for, fail, each_job, no_endpoint_reason,
}

unfoldable pub orphan : Env → Job → (runpod_id reason : Text) → World → World
orphan env j runpod_id reason w = record w {
  db = (orphan_submission w.db env.now j.id runpod_id reason).0;
}

abbrev pub refusal_reason : CallError → Text
refusal_reason e =
    if is_permanent e
    then codes "submit-rejected: " ++ error_message e
    else codes "submit-ambiguous: " ++ error_message e

-- After the retry counter was raised: back to the queue, or orphaned when that is lost.
unfoldable pub requeue : Env → Job → CallError → World → World
requeue env j e w =
    let (d, r) = transition_job w.db env.now j.id submitting queued (λ x. x) in
    elim r [
      | ok u ↦ record w { db = d }
      | err x ↦ orphan env j [] (refusal_reason e) (record w { db = d })
    ]

unfoldable pub bumped : Env → Job → CallError → World → Db × Result ℕ → World
bumped env j e w (d, ok n) = requeue env j e (record w { db = d })
bumped env j e w (d, err x) = w

unfoldable pub classify_submit : Env → Job → CallError → World → World
unfolding bumped
classify_submit env j e w =
    if is_retryable_submit e
    then bumped env j e w (bump_retries w.db env.now j.id)
    else orphan env j [] (refusal_reason e) w

-- The remote id is recorded, or the remote job is cancelled and the submission orphaned.
unfoldable pub record_id : Env → Job → (runpod_id : Text) → World → World
record_id env j rid w =
    let (d, r) =
      transition_job w.db env.now j.id submitting submitted
        (λ x. record x { runpod_id = rid; retries = 0 }) in
    elim r [
      | ok u ↦ record w { db = d }
      | err x ↦
          orphan env j rid
            (codes "submit-cas: store: state transition rejected: job "
              ++ j.id
              ++ codes " submitting -> submitted")
            (called (cancelled rid) (record w { db = d }))
    ]

unfoldable pub posted_outcome : Env → Job → Outcome Text → World → World
posted_outcome env j (failed_with e) w = classify_submit env j e w
posted_outcome env j (done rid) w = record_id env j rid w

-- What RunPod answers to the submission of a job.
unfoldable pub reply : Env → Job → Client → Outcome Text
reply env j c = submit c (env.run_net j (request_for j))

unfoldable pub post : Env → Job → Client → World → World
post env j c w = posted_outcome env j (reply env j c) (called (posted j.id (reply env j c)) w)

abbrev pub claim : Env → Job → World → Db × Result (Unit {0})
claim env j w = transition_job w.db env.now j.id queued submitting (λ x. x)

-- What follows a claim that succeeded.
unfoldable pub claimed : Env → Job → World → World
claimed env j w = elim (client_for env j) [
  | none ↦ fail env j (no_endpoint_reason j) w
  | some c ↦ post env j c w
]

unfoldable pub after_claim : Env → Job → World → Db × Result (Unit {0}) → World
unfolding claimed
after_claim env j w (d, ok u) = claimed env j (record w { db = d })
after_claim env j w (d, err e) = w

unfoldable pub submit_one : Env → Job → World → World
unfolding after_claim
submit_one env j w =
    if not (is_empty j.runpod_id)
    then w
    else if (expired env.now j).0
    then fail env j (expired env.now j).1 w
    else if ltb env.now (j.updated_at + submit_delay j.retries)
    then w
    else after_claim env j w (claim env j w)

-- The in-flight cap leaves room for as many jobs as it exceeds the active ones by.
unfoldable pub submit_queued : Env → World → World
submit_queued env w =
    let budget = env.max_in_flight - length (active_jobs w.db) in
    if budget == 0 then w else each_job (submit_one env) (dequeue_queued w.db budget) w

abbrev pub ambiguous_reason : Text
ambiguous_reason =
    codes "submit-ambiguous: process stopped before the remote id was durable; not resubmitting"

unfoldable pub fail_ambiguous_submissions : Env → World → World
fail_ambiguous_submissions env w =
    each_job (λ j. orphan env j j.runpod_id ambiguous_reason) (submitting_jobs w.db) w
