-- ===== src/Worker/Ending.antt =====
-- internal/worker/worker.go, failExpired: a job that outlived its budget does not stay active.
use minmaxmusic3_web.Prelude.{
  ℕ, ◌≡◌, refl, sym, subst, inl, inr, true, false, List, [], ◌∷◌, arith, ◌==◌, ==_iff, Bool-cases,
  if_cases, All, Has, All-Has, All-count_zero, Text, text_eq, update, count_rows,
}
use minmaxmusic3_web.Store.Rows.{Job, Db, failed, is_terminal}
use minmaxmusic3_web.Store.Jobs.{unfinished, fail_job, active_jobs}
use minmaxmusic3_web.Worker.Budget.{expired}
use minmaxmusic3_web.Worker.Rows.{Every, fail-Every}
use minmaxmusic3_web.Worker.World.{World, Env, fail, each_job, each_job-keeps}
use minmaxmusic3_web.Worker.Poll.{fail_if_expired, fail_expired}

-- Every row of the job is in a terminal state.
abbrev pub Ended : (id : Text) → Job → Type 0
Ended id r = text_eq r.id id ≡ true → is_terminal r.state ≡ true

abbrev as_failed : (now : ℕ) → (reason : Text) → Job → Job
as_failed now reason r = record r { state = failed; error = reason; updated_at = now }

update-Ended :
    (now : ℕ) (id reason : Text) (rs : List Job)
    → All (Ended id) (update (unfinished id) (as_failed now reason) rs)
unfolding update
update-Ended now id reason [] = tt
update-Ended now id reason (r ∷ rs) = (
  if_cases (Ended id) (unfinished id r) _ _ (λ t same. refl) (λ f same. ground arith),
  update-Ended now id reason rs,
)

untouched-Ended :
    (id : Text) (rs : List Job) → All (λ r. unfinished id r ≡ false) rs → All (Ended id) rs
untouched-Ended id [] h = tt
untouched-Ended id (r ∷ rs) (h, hs) = (λ same. ground arith, untouched-Ended id rs hs)

fail_job-Ended :
    (d : Db) (now : ℕ) (id reason : Text) → Every (Ended id) (fail_job d now id reason).0
unfolding fail_job
fail_job-Ended d now id reason = elim (Bool-cases (count_rows (unfinished id) d.jobs == 0)) [
  | inl t ↦
      rw t (untouched-Ended id d.jobs (All-count_zero (unfinished id) d.jobs ((==_iff _ 0).0 t)))
  | inr f ↦ rw f (update-Ended now id reason d.jobs)
]

-- Later failures leave it so.
fail_if_expired-Ended :
    (env : Env) (id : Text) (j : Job) (w : World)
    → Every (Ended id) w.db
    → Every (Ended id) (fail_if_expired env j w).db
unfolding fail_if_expired fail
fail_if_expired-Ended env id j w h =
    if_cases (λ (x : World). Every (Ended id) x.db) (expired env.now j).0 _ _
      (λ t. fail-Every (Ended id) w.db env.now j.id (expired env.now j).1 (λ r u e same. refl) h)
      (λ f. h)

own-Ended :
    (env : Env) (j : Job) (w : World)
    → (expired env.now j).0 ≡ true
    → Every (Ended j.id) (fail_if_expired env j w).db
unfolding fail_if_expired fail
own-Ended env j w over = rw over (fail_job-Ended w.db env.now j.id (expired env.now j).1)

each_job-Ended :
    (env : Env) (j : Job) (js : List Job) (w : World)
    → Has j js
    → (expired env.now j).0 ≡ true
    → Every (Ended j.id) (each_job (fail_if_expired env) js w).db
unfolding each_job
each_job-Ended env j [] w m over = absurd m
each_job-Ended env j (x ∷ js) w (inr m) over =
    each_job-Ended env j js (fail_if_expired env x w) m over
each_job-Ended env j (x ∷ js) w (inl e) over =
    each_job-keeps (λ (v : World). Every (Ended j.id) v.db) (fail_if_expired env)
      (fail_if_expired-Ended env j.id) js (fail_if_expired env x w)
      (subst (λ (y : Job). Every (Ended j.id) (fail_if_expired env y w).db) (sym e)
        (own-Ended env j w over))

-- After the sweep of a restart every job that it lists and that outlived its budget has ended: each
-- of its rows is in a terminal state.
pub fail_expired-Ended :
    (env : Env) (w : World) (j r : Job)
    → Has j (active_jobs w.db)
    → (expired env.now j).0 ≡ true
    → Has r (fail_expired env w).db.jobs
    → text_eq r.id j.id ≡ true
    → is_terminal r.state ≡ true
unfolding fail_expired
fail_expired-Ended env w j r m over row =
    All-Has (Ended j.id) r (fail_expired env w).db.jobs
      (each_job-Ended env j (active_jobs w.db) w m over) row
