-- ===== src/Worker/Billing/Posting.antt =====
-- internal/worker/worker.go, submitOne to post: the claim, the post and what follows keep the bills.
use minmaxmusic3_web.Prelude.{
  ℕ, ◌≤◌, ◌≡◌, refl, sym, ap, ◌∙◌, ◌⊎◌, inl, inr, true, false, List, [], ◌∷◌, ◌++◌, arith,
  Bool-cases, All, All-map_prop, Text, codes, text_eq, text_eq_sound, text_eq_complete, update,
  count_rows, ◌==◌, Option-cases, not, is_empty, All-witness, subst, All-update, ltb, ◌+◌,
}
use minmaxmusic3_web.Store.Rows.{
  Job, Db, queued, submitting, submitted, cancelled, state_eq, Result, ok, err,
}
use minmaxmusic3_web.Store.Jobs.{in_state, transition_job, bump_retries}
use minmaxmusic3_web.Runpod.Errors.{CallError, is_retryable_submit}
use minmaxmusic3_web.Runpod.Client.{Client, Outcome, done, failed_with}
use minmaxmusic3_web.Worker.World.{
  World, Env, Call, posted, cancelled, called, client_for, no_endpoint_reason,
}
use minmaxmusic3_web.Worker.Budget.{expired, submit_delay}
use minmaxmusic3_web.Worker.Rows.{transition-Every}
use minmaxmusic3_web.Worker.Submit.{
  orphan, refusal_reason, requeue, bumped, classify_submit, record_id, posted_outcome, reply, post,
  claim, submit_one, after_claim, claimed,
}
use minmaxmusic3_web.Worker.Billing.{
  bill, Unposted, Fair, cancelled-Fair, orphan-Fair, bump-Fair, forward-Fair, fail-Fair,
  retryable_unbilled,
}

-- No row of this id waits in the queue.
abbrev pub Unqueued : Text → Job → Type 0
Unqueued id r = text_eq r.id id ≡ true → state_eq r.state queued ≡ false

-- A job that was claimed and not yet posted.
pub record Held (w : World) (id : Text) : Type 0 where
  pub fair : Fair w
  pub unbilled : bill id w.log ≡ 0
  pub unqueued : All (Unqueued id) w.db.jobs

bill-cong : (a b : Text) (log : List Call) → text_eq a b ≡ true → bill a log ≡ bill b log
bill-cong a b log e = ap (λ x. bill x log) (text_eq_sound a b e)

Unposted-posted :
    (id : Text) (o : Outcome Text) (log : List Call) (r : Job)
    → Unqueued id r × Unposted log r
    → Unposted (posted id o ∷ log) r
unfolding bill
Unposted-posted id o log r (u, p) q = elim (Bool-cases (text_eq id r.id)) [
  | inl e ↦ absurd (ground (arith, u (text_eq_complete r.id id (sym (text_eq_sound id r.id e)))))
  | inr n ↦ rw n (p q)
]

All-both :
    {A : Type 0} (P Q : A → Type 0) (xs : List A) → All P xs → All Q xs → All (λ x. P x × Q x) xs
All-both P Q [] p q = tt
All-both P Q (x ∷ xs) p q = ((p.0, q.0), All-both P Q xs p.1 q.1)

-- Whatever a held job's post is answered, the bills stay in order.
pub posted-Fair :
    (w : World) (id : Text) (o : Outcome Text) → Held w id → Fair (called (posted id o) w)
posted-Fair w id o h = record {
  once = λ k. one k (Bool-cases (text_eq id k));
  unposted =
      All-map_prop w.db.jobs (Unposted-posted id o w.log)
        (All-both (Unqueued id) (Unposted w.log) w.db.jobs h.unqueued h.fair.unposted);
}
  where
    one :
        (k : Text)
        → (text_eq id k ≡ true) ⊎ (text_eq id k ≡ false)
        → bill k (posted id o ∷ w.log) ≤ 1
    one k (inl e) = unfold bill in ground (arith, bill-cong id k w.log e, h.unbilled)
    one k (inr n) = unfold bill in ground (arith, h.fair.once k)

-- A refusal is no bill, so the job may go back to the queue.
refused-Held :
    (w : World) (id : Text) (e : CallError)
    → is_retryable_submit e ≡ true
    → Held w id
    → Held (called (posted id (failed_with e)) w) id
refused-Held w id e refused h = record {
  fair = posted-Fair w id (failed_with e) h;
  unbilled = unfold bill in ground (arith, h.unbilled, retryable_unbilled e refused);
  unqueued = h.unqueued;
}

requeue-Fair :
    (env : Env) (j : Job) (e : CallError) (w : World)
    → Fair w
    → bill j.id w.log ≡ 0
    → Fair (requeue env j e w)
unfolding requeue
requeue-Fair env j e w h unbilled =
    settled (transition_job w.db env.now j.id submitting queued (λ x. x)) (
      transition-Every (Unposted w.log) w.db env.now j.id submitting queued (λ x. x)
        (λ r t p. λ q. bill-cong r.id j.id w.log (ground arith) ∙ unbilled) h.unposted)
  where
    settled :
        (m : Db × Result (Unit {0}))
        → All (Unposted w.log) m.0.jobs
        → Fair (elim m.1 as (λ x. World) [
          | ok u ↦ record w { db = m.0 }
          | err x ↦ orphan env j [] (refusal_reason e) (record w { db = m.0 })
        ])
    settled (d, ok u) rows = record { once = h.once; unposted = rows }
    settled (d, err x) rows =
        orphan-Fair env j [] (refusal_reason e) (record w { db = d })
          (record { once = h.once; unposted = rows })

bumped-Fair :
    (env : Env) (j : Job) (e : CallError) (w : World) (m : Db × Result ℕ)
    → Fair w
    → bill j.id w.log ≡ 0
    → Fair (record w { db = m.0 })
    → Fair (bumped env j e w m)
unfolding bumped
bumped-Fair env j e w (d, ok n) h unbilled rows =
    requeue-Fair env j e (record w { db = d }) rows unbilled
bumped-Fair env j e w (d, err x) h unbilled rows = h

classify_submit-Fair :
    (env : Env) (j : Job) (e : CallError) (w : World)
    → Fair w
    → (is_retryable_submit e ≡ true → bill j.id w.log ≡ 0)
    → Fair (classify_submit env j e w)
unfolding classify_submit
classify_submit-Fair env j e w h unbilled = elim (Bool-cases (is_retryable_submit e)) [
  | inl t ↦
      rw (t, classify_submit)
        (bumped-Fair env j e w (bump_retries w.db env.now j.id) h (unbilled t)
          (bump-Fair env j w h))
  | inr n ↦ rw (n, classify_submit) (orphan-Fair env j [] (refusal_reason e) w h)
]

record_id-Fair :
    (env : Env) (j : Job) (rid : Text) (w : World) → Fair w → Fair (record_id env j rid w)
unfolding record_id
record_id-Fair env j rid w h =
    settled
      (transition_job w.db env.now j.id submitting submitted
        (λ x. record x { runpod_id = rid; retries = 0 }))
      (forward-Fair env.now j.id submitting submitted
        (λ x. record x { runpod_id = rid; retries = 0 }) w refl (λ r. refl) h)
  where
    lost : Text
    lost =
        codes "submit-cas: store: state transition rejected: job "
        ++ j.id
        ++ codes " submitting -> submitted"

    settled :
        (m : Db × Result (Unit {0}))
        → Fair (record w { db = m.0 })
        → Fair (elim m.1 as (λ x. World) [
          | ok u ↦ record w { db = m.0 }
          | err x ↦ orphan env j rid lost (called (cancelled rid) (record w { db = m.0 }))
        ])
    settled (d, ok u) f = f
    settled (d, err x) f =
        orphan-Fair env j rid lost (called (cancelled rid) (record w { db = d }))
          (cancelled-Fair rid (record w { db = d }) f)

-- A held job is posted once, and its answer recorded.
pub post-Fair : (env : Env) (j : Job) (c : Client) (w : World) → Held w j.id → Fair (post env j c w)
unfolding post
post-Fair env j c w h = answered (reply env j c)
  where
    answered : (o : Outcome Text) → Fair (posted_outcome env j o (called (posted j.id o) w))
    answered (done rid) =
        unfold posted_outcome in
        record_id-Fair env j rid (called (posted j.id (done rid)) w)
          (posted-Fair w j.id (done rid) h)
    answered (failed_with e) =
        unfold posted_outcome in
        classify_submit-Fair env j e (called (posted j.id (failed_with e)) w)
          (posted-Fair w j.id (failed_with e) h)
          (λ refused. (refused-Held w j.id e refused h).unbilled)

claims_clear :
    (now : ℕ) (id : Text) (rows : List Job)
    → All
        (Unqueued id)
        (update (in_state id queued) (λ r. record r { state = submitting; updated_at = now }) rows)
unfolding update
claims_clear now id [] = tt
claims_clear now id (r ∷ rows) = elim (Bool-cases (in_state id queued r)) [
  | inl t ↦ rw t ((λ e. refl), claims_clear now id rows)
  | inr n ↦ rw n ((λ e. ground arith), claims_clear now id rows)
]

-- A claim that succeeds leaves the job held.
pub claim-Held :
    (env : Env) (j : Job) (w : World) (d : Db)
    → Fair w
    → claim env j w ≡ (d, ok tt)
    → Held (record w { db = d }) j.id
unfolding transition_job
claim-Held env j w d h e = elim (Bool-cases (count_rows (in_state j.id queued) w.db.jobs == 0)) [
  | inl t ↦ absurd (ground arith)
  | inr n ↦
      let (x, t, unposted) =
        All-witness (Unposted w.log) (in_state j.id queued) w.db.jobs (ground arith) h.unposted in
      subst (λ y. Held (record w { db = y }) j.id)
        {x = record w.db {
          jobs =
              update (in_state j.id queued)
                (λ r. record r { state = submitting; updated_at = env.now }) w.db.jobs;
        }}
        (ground arith)
        (record {
          fair = record {
            once = h.once;
            unposted =
                All-update (Unposted w.log) (in_state j.id queued)
                  (λ r. record r { state = submitting; updated_at = env.now }) w.db.jobs
                  (λ r t p. λ q. absurd (ground arith)) h.unposted;
          };
          unbilled = sym (bill-cong x.id j.id w.log (ground arith)) ∙ unposted (ground arith);
          unqueued = claims_clear env.now j.id w.db.jobs;
        })
]

claimed-Fair : (env : Env) (j : Job) (w : World) → Held w j.id → Fair (claimed env j w)
unfolding claimed
claimed-Fair env j w h = elim (Option-cases (client_for env j)) [
  | inl n ↦ rw (n, claimed) (fail-Fair env j (no_endpoint_reason j) w h.fair)
  | inr (c, e) ↦ rw (e, claimed) (post-Fair env j c w h)
]

after_claim-Fair :
    (env : Env) (j : Job) (w : World) → Fair w → Fair (after_claim env j w (claim env j w))
unfolding after_claim
after_claim-Fair env j w h = settled (claim env j w) refl
  where
    settled : (m : Db × Result (Unit {0})) → claim env j w ≡ m → Fair (after_claim env j w m)
    settled (d, ok u) e = claimed-Fair env j (record w { db = d }) (claim-Held env j w d h e)
    settled (d, err x) e = h

-- One queued job, on every branch.
pub submit_one-Fair : (env : Env) (j : Job) (w : World) → Fair w → Fair (submit_one env j w)
unfolding submit_one
submit_one-Fair env j w h = elim (Bool-cases (not (is_empty j.runpod_id))) [
  | inl out ↦ rw (out, submit_one) h
  | inr fresh ↦
      rw (fresh, submit_one)
        (elim (Bool-cases (expired env.now j).0) [
          | inl over ↦ rw over (fail-Fair env j (expired env.now j).1 w h)
          | inr live ↦
              rw live (elim (Bool-cases (ltb env.now (j.updated_at + submit_delay j.retries))) [
                | inl wait ↦ rw wait h
                | inr now ↦ rw now (after_claim-Fair env j w h)
              ])
        ])
]
