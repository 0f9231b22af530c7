-- ===== src/Worker/Rows.antt =====
-- internal/store/store.go, seen from the worker: a property of every job row that each of the
-- store's writes keeps.
use minmaxmusic3_web.Prelude.{
  ℕ, ◌+◌, ◌≡◌, inl, inr, true, ◌==◌, Bool-cases, Option-cases, All, Text, text_eq, first, update,
  count_rows, All-update,
}
use minmaxmusic3_web.Store.Rows.{Job, Db, JobState, submitting, failed, exec_affecting}
use minmaxmusic3_web.Store.Jobs.{
  in_state, unfinished, or_transition, transition_job, fail_job, orphan_submission, bump_retries,
}

module _ (P : Job → Type 0) where
  abbrev pub Every : Db → Type 0
  Every d = All P d.jobs

  exec-Every :
      (n : ℕ) (before after : Db)
      → Every before
      → Every after
      → Every (or_transition (exec_affecting n before after)).0
  exec-Every n before after b a = elim (Bool-cases (n == 0)) [ inl t ↦ rw t b | inr f ↦ rw f a ]

  pub transition-Every :
      (d : Db) (now : ℕ) (id : Text) (from to : JobState) (set : Job → Job)
      → ((r : Job)
          → in_state id from r ≡ true
          → P r
          → P (set (record r { state = to; updated_at = now })))
      → Every d
      → Every (transition_job d now id from to set).0
  unfolding transition_job
  transition-Every d now id from to set step h =
      exec-Every (count_rows (in_state id from) d.jobs) d _ h (
        All-update P (in_state id from) (λ r. set (record r { state = to; updated_at = now }))
          d.jobs step h)

  pub fail-Every :
      (d : Db) (now : ℕ) (id reason : Text)
      → ((r : Job)
          → unfinished id r ≡ true
          → P r
          → P (record r { state = failed; error = reason; updated_at = now }))
      → Every d
      → Every (fail_job d now id reason).0
  unfolding fail_job
  fail-Every d now id reason step h =
      exec-Every (count_rows (unfinished id) d.jobs) d _ h
        (All-update P (unfinished id) _ d.jobs step h)

  pub orphan-Every :
      (d : Db) (now : ℕ) (id rid reason : Text)
      → ((r : Job)
          → in_state id submitting r ≡ true
          → P r
          → P (record r { state = failed; runpod_id = rid; error = reason; updated_at = now }))
      → Every d
      → Every (orphan_submission d now id rid reason).0
  unfolding orphan_submission
  orphan-Every d now id rid reason step h =
      exec-Every (count_rows (in_state id submitting) d.jobs) d _ h
        (All-update P (in_state id submitting) _ d.jobs step h)

  pub bump-Every :
      (d : Db) (now : ℕ) (id : Text)
      → ((r : Job)
          → text_eq r.id id ≡ true
          → P r
          → P (record r { retries = r.retries + 1; updated_at = now }))
      → Every d
      → Every (bump_retries d now id).0
  unfolding bump_retries
  bump-Every d now id step h =
      elim (Option-cases (
        first (λ (r : Job). text_eq r.id id)
          (update (λ (r : Job). text_eq r.id id)
            (λ r. record r { retries = r.retries + 1; updated_at = now }) d.jobs))) [
              | inl n ↦ rw n (All-update P (λ (r : Job). text_eq r.id id) _ d.jobs step h)
              | inr (x, e) ↦ rw e (All-update P (λ (r : Job). text_eq r.id id) _ d.jobs step h)
            ]
