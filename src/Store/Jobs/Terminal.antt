-- ===== src/Store/Jobs/Terminal.antt =====
-- internal/store/store.go, the job states: a row in a terminal state is not changed by a transition
-- from another state, a failure or an orphaned submission, and a job is claimed once.
use minmaxmusic3_web.Prelude.{
  ℕ, ◌≡◌, refl, sym, ap, ◌∙◌, inl, inr, Bool, true, false, ◌&&◌, arith, ◌==◌, Bool-cases, Has,
  Has-update, count-update_away, Text, text_eq, update, count_rows,
}
use minmaxmusic3_web.Store.Rows.{
  Job, Db, JobState, submitting, state_eq, is_terminal, err_transition, ok, err, exec_affecting,
}
use minmaxmusic3_web.Store.Jobs.{
  in_state, unfinished, or_transition, transition_job, fail_job, orphan_submission, Result,
}

kept-Has :
    (r : Job) (n : ℕ) (before after : Db)
    → Has r before.jobs
    → Has r after.jobs
    → Has r (or_transition (exec_affecting n before after)).0.jobs
kept-Has r n before after b a = elim (Bool-cases (n == 0)) [ inl t ↦ rw t b | inr f ↦ rw f a ]

elsewhere :
    (r : Job) (id : Text) (from : JobState)
    → is_terminal r.state ≡ true
    → is_terminal from ≡ false
    → in_state id from r ≡ false
elsewhere r id from done live = ground arith

-- A row in a terminal state stands unchanged after any transition from a state that is not
-- terminal, any failure and any orphaned submission, of whatever job.
pub terminal_rows_stay :
    (d : Db) (r : Job) (now : ℕ) (id rid reason : Text) (from to : JobState) (set : Job → Job)
    → Has r d.jobs
    → is_terminal r.state ≡ true
    → is_terminal from ≡ false
    → Has r (transition_job d now id from to set).0.jobs
      × Has r (fail_job d now id reason).0.jobs
      × Has r (orphan_submission d now id rid reason).0.jobs
unfolding transition_job fail_job orphan_submission
terminal_rows_stay d r now id rid reason from to set m done live = (
  kept-Has r (count_rows (in_state id from) d.jobs) d _ m
      (Has-update (in_state id from) _ r d.jobs (elsewhere r id from done live) m),
  kept-Has r (count_rows (unfinished id) d.jobs) d _ m
      (Has-update (unfinished id) _ r d.jobs (ground arith) m),
  kept-Has r (count_rows (in_state id submitting) d.jobs) d _ m
      (Has-update (in_state id submitting) _ r d.jobs (elsewhere r id submitting done refl) m),
)

and_false : (a b : Bool) → b ≡ false → (a && b) ≡ false
and_false true b e = e
and_false false b e = refl

moved_away :
    (now : ℕ) (id : Text) (from to : JobState) (set : Job → Job)
    → ((r : Job) → (set r).state ≡ r.state)
    → state_eq to from ≡ false
    → (r : Job) → in_state id from (set (record r { state = to; updated_at = now })) ≡ false
moved_away now id from to set keeps other r =
    and_false (text_eq (set (record r { state = to; updated_at = now })).id id) _
      (ap (λ s. state_eq s from) (keeps (record r { state = to; updated_at = now })) ∙ other)

lost :
    (d : Db) (now : ℕ) (id : Text) (from to : JobState) (set : Job → Job)
    → count_rows (in_state id from) d.jobs ≡ 0
    → transition_job d now id from to set ≡ (d, err err_transition)
unfolding transition_job
lost d now id from to set none_met = rw none_met

won :
    (d d' : Db) (now : ℕ) (id : Text) (from to : JobState) (set : Job → Job)
    → transition_job d now id from to set ≡ (d', ok tt)
    → d' ≡ record d {
      jobs =
          update (in_state id from) (λ r. set (record r { state = to; updated_at = now })) d.jobs;
    }
unfolding transition_job
won d d' now id from to set e = elim (Bool-cases (count_rows (in_state id from) d.jobs == 0)) [
  | inl t ↦ absurd (taken (rw t at e))
  | inr n ↦ ap (λ (m : Db × Result (Unit {0})). m.0) (sym (rw n at e))
]
  where
    taken : ◌≡◌ {A = Db × Result (Unit {0})} (d, err err_transition) (d', ok tt) → ⊥
    taken h = cc

-- The compare-and-set is won once: where a transition to another state succeeds, the same
-- transition tried next fails with ErrTransition and changes nothing.
pub transition_once :
    (d d' : Db) (now later : ℕ) (id : Text) (from to : JobState) (set set' : Job → Job)
    → ((r : Job) → (set r).state ≡ r.state)
    → state_eq to from ≡ false
    → transition_job d now id from to set ≡ (d', ok tt)
    → transition_job d' later id from to set' ≡ (d', err err_transition)
transition_once d d' now later id from to set set' keeps other e =
    rw (won d d' now id from to set e) (
      lost (record d { jobs = update (in_state id from) moved d.jobs }) later id from to set'
        (count-update_away (in_state id from) moved d.jobs
          (moved_away now id from to set keeps other)))
  where
    moved : Job → Job
    moved r = set (record r { state = to; updated_at = now })
