-- ===== src/Worker/Billing/Life.antt =====
-- internal/worker/worker.go and what shares its tables: the life of the service as steps. Rounds of
-- the loop and restarts come in any order, among crashes between a claim and the recording of the
-- remote id, new jobs, and the deletion of songs and accounts.
use minmaxmusic3_web.Prelude.{
  ℕ, ◌≤◌, ◌≡◌, refl, ◌⊎◌, inl, inr, Bool, true, false, List, [], ◌∷◌, arith, Bool-cases, All,
  All-append, Text, text_eq, remove, any_row, All-remove,
}
use minmaxmusic3_web.Store.Rows.{Job, Db, ok}
use minmaxmusic3_web.Store.Jobs.{create_job, new_row}
use minmaxmusic3_web.Runpod.Json.{Json}
use minmaxmusic3_web.Runpod.Client.{Client}
use minmaxmusic3_web.Runpod.Output.{Output}
use minmaxmusic3_web.Worker.World.{World, Env, posted, called}
use minmaxmusic3_web.Worker.Submit.{claim, reply}
use minmaxmusic3_web.Worker.Poll.{tick, recover}
use minmaxmusic3_web.Worker.Billing.{bill, Unposted, Fair}
use minmaxmusic3_web.Worker.Billing.Posting.{claim-Held, posted-Fair}
use minmaxmusic3_web.Worker.Billing.Steps.{tick-Fair, recover-Fair}

create_job-Fair :
    (w : World) (j : Job)
    → bill j.id w.log ≡ 0
    → Fair w
    → Fair (record w { db = (create_job w.db j).0 })
create_job-Fair w j fresh h = record {
  once = h.once;
  unposted = rows (Bool-cases (any_row (λ r. text_eq r.id j.id) w.db.jobs));
}
  where
    rows :
        (any_row (λ (r : Job). text_eq r.id j.id) w.db.jobs ≡ true)
          ⊎ (any_row (λ (r : Job). text_eq r.id j.id) w.db.jobs ≡ false)
        → All (Unposted w.log) (create_job w.db j).0.jobs
    rows (inl t) = unfold create_job in rw (t, create_job) h.unposted
    rows (inr n) =
        unfold create_job new_row in
        rw (n, create_job)
          (All-append (Unposted w.log) w.db.jobs (new_row j ∷ []) h.unposted ((λ q. fresh), tt))

module _ (bits : Output → ℕ) (render : Json → Text) where
  pub data Step (w : World) : World → Type 0 where
    ticked : (env : Env) → Step w (tick bits render env w)
    restarted : (env : Env) → Step w (recover env w)
    -- The process stops between the claim and the post, or between the post and its recording.
    crashed_claimed :
        (env : Env) (j : Job) (d : Db) → claim env j w ≡ (d, ok tt) → Step w (record w { db = d })
    crashed_posted :
        (env : Env) (j : Job) (c : Client) (d : Db)
        → claim env j w ≡ (d, ok tt)
        → Step w (called (posted j.id (reply env j c)) (record w { db = d }))
    -- A new job's id was never posted.
    job_created : (j : Job) → bill j.id w.log ≡ 0 → Step w (record w { db = (create_job w.db j).0 })
    -- Rows are deleted, as with a song or an account.
    jobs_deleted :
        (gone : Job → Bool)
        → Step w (record w { db = record w.db { jobs = remove gone w.db.jobs } })

  pub data Reach (v : World) : World → Type 0 where
    here : Reach v v
    next : {w x : World} → Reach v w → Step w x → Reach v x

  Step-Fair : {w x : World} → Step w x → Fair w → Fair x
  Step-Fair {w} (ticked env) h = tick-Fair bits render env w h
  Step-Fair {w} (restarted env) h = recover-Fair env w h
  Step-Fair {w} (crashed_claimed env j d e) h = (claim-Held env j w d h e).fair
  Step-Fair {w} (crashed_posted env j c d e) h =
      posted-Fair (record w { db = d }) j.id (reply env j c) (claim-Held env j w d h e)
  Step-Fair {w} (job_created j fresh) h = create_job-Fair w j fresh h
  Step-Fair {w} (jobs_deleted gone) h = record {
    once = h.once;
    unposted = All-remove (Unposted w.log) gone w.db.jobs h.unposted;
  }

  Reach-Fair : {v w : World} → Fair v → Reach v w → Fair w
  Reach-Fair h here = h
  Reach-Fair h (next r s) = Step-Fair s (Reach-Fair h r)

  All-Unposted : (rows : List Job) → All (Unposted []) rows
  unfolding bill
  All-Unposted [] = tt
  All-Unposted (r ∷ rows) = ((λ q. refl), All-Unposted rows)

  -- From any database, in whatever order rounds, restarts, crashes, new jobs and deletions come and
  -- whatever the network answers: of each job, RunPod may have accepted at most one submission, and
  -- none of a job that still waits in the queue. Assumed is only that it accepted nothing where it
  -- was not called for want of an endpoint or a key, or answered 409, 429 or 503, or a 2xx without a
  -- job id; a call that failed in transit and one with any other answer count as accepted.
  pub no_double_billing :
      (d : Db) (w : World)
      → Reach (record { db = d; log = [] }) w
      → ((id : Text) → bill id w.log ≤ 1) × All (Unposted w.log) w.db.jobs
  no_double_billing d w r =
      let h =
        Reach-Fair {v = record { db = d; log = [] }} {w = w}
          (record { once = λ id. unfold bill in omega arith; unposted = All-Unposted d.jobs }) r in
      (h.once, h.unposted)
