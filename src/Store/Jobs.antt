-- ===== src/Store/Jobs.antt =====
-- internal/store/store.go, the jobs table: creation, the compare-and-set on the state, failure,
-- orphaned submissions, the retry counter and the scans of the worker.
pub mod Terminal
use minmaxmusic3_web.Prelude.{
  ℕ, ◌+◌, Bool, ◌&&◌, not, Option, none, some, List, [], ◌∷◌, ◌++◌, Text, text_eq, if◌then◌else◌,
  leb, select, first, update, count_rows, any_row, sort_by, take,
}
use minmaxmusic3_web.Store.Rows.{
  Job, Db, JobState, queued, submitting, submitted, running, failed, state_eq, is_terminal,
  err_transition, err_no_rows, err_constraint, Result, ok, err, Access, owned_by, engine_or,
  mode_or, owner, exec_affecting,
}

-- The row that the INSERT of CreateJob writes: the columns that it does not name take their
-- defaults.
unfoldable pub new_row : Job → Job
new_row j = record j {
  state = queued;
  runpod_id = [];
  user_id = owner j.user_id;
  engine = engine_or j.engine;
  mode = mode_or j.mode;
  error = [];
  retries = 0;
  started_at = none;
  updated_at = j.created_at;
}

unfoldable pub create_job : Db → Job → Db × Result (Unit {0})
create_job d j =
    if any_row (λ r. text_eq r.id j.id) d.jobs
    then (d, err err_constraint)
    else (record d { jobs = d.jobs ++ new_row j ∷ [] }, ok tt)

-- WHERE id = ? AND state = ?
abbrev pub in_state : Text → JobState → Job → Bool
in_state id from r = text_eq r.id id && state_eq r.state from

-- errors.Is(err, sql.ErrNoRows) becomes ErrTransition.
abbrev pub or_transition : Db × Result (Unit {0}) → Db × Result (Unit {0})
or_transition (d, ok u) = (d, ok u)
or_transition (d, err err_no_rows) = (d, err err_transition)
or_transition (d, err e) = (d, err e)

-- `set` is applied to the assignments last, so it may overwrite them.
unfoldable pub transition_job :
    Db → (now : ℕ) → (id : Text) → (from to : JobState) → (Job → Job) → Db × Result (Unit {0})
transition_job d now id from to set = or_transition (
    exec_affecting (count_rows (in_state id from) d.jobs) d (record d {
      jobs =
          update (in_state id from) (λ r. set (record r { state = to; updated_at = now })) d.jobs;
    }))

abbrev pub unfinished : Text → Job → Bool
unfinished id r = text_eq r.id id && not (is_terminal r.state)

unfoldable pub fail_job : Db → (now : ℕ) → (id reason : Text) → Db × Result (Unit {0})
fail_job d now id reason = or_transition (
    exec_affecting (count_rows (unfinished id) d.jobs) d (record d {
      jobs =
          update (unfinished id)
            (λ r. record r { state = failed; error = reason; updated_at = now }) d.jobs;
    }))

unfoldable pub orphan_submission :
    Db → (now : ℕ) → (id runpod_id reason : Text) → Db × Result (Unit {0})
orphan_submission d now id runpod_id reason = or_transition (
    exec_affecting (count_rows (in_state id submitting) d.jobs) d (record d {
      jobs =
          update (in_state id submitting)
            (λ r. record r {
              state = failed;
              runpod_id = runpod_id;
              error = reason;
              updated_at = now;
            })
            d.jobs;
    }))

abbrev pub retries_of : Db → Option Job → Db × Result ℕ
retries_of d none = (d, err err_no_rows)
retries_of d (some r) = (d, ok r.retries)

unfoldable pub bump_retries : Db → (now : ℕ) → (id : Text) → Db × Result ℕ
bump_retries d now id =
    let jobs' =
      update (λ (r : Job). text_eq r.id id)
        (λ r. record r { retries = r.retries + 1; updated_at = now }) d.jobs in
    retries_of (record d { jobs = jobs' }) (first (λ r. text_eq r.id id) jobs')

unfoldable pub job : Db → (id : Text) → Access → Option Job
job d id a = first (λ r. text_eq r.id id && owned_by a r.user_id) d.jobs

-- ORDER BY created_at LIMIT ?
unfoldable pub jobs_by_state : Db → JobState → (limit : ℕ) → List Job
jobs_by_state d state limit = take limit (
    sort_by (λ (a b : Job). leb a.created_at b.created_at)
      (select (λ r. state_eq r.state state) d.jobs))

unfoldable pub dequeue_queued : Db → (limit : ℕ) → List Job
dequeue_queued d limit = jobs_by_state d queued limit

unfoldable pub submitting_jobs : Db → List Job
submitting_jobs d = jobs_by_state d submitting 100

unfoldable pub active_jobs : Db → List Job
active_jobs d = jobs_by_state d submitted 100 ++ jobs_by_state d running 100
