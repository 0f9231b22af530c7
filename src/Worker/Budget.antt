-- ===== src/Worker/Budget.antt =====
-- internal/worker/worker.go: the two budgets of a job and the spacing of its retries. Times and
-- durations are nanoseconds, and `time.Since(t) > b` is `t + b < now`.
use minmaxmusic3_web.Prelude.{
  ℕ, zero, suc, ◌+◌, ◌*◌, ◌^◌, ◌≤◌, ◌<◌, min, ◌≡◌, refl, ◌≢◌, ◌↔◌, inl, inr, Bool, true, not, none,
  some, ◌++◌, arith, ltb, leb, ◌==◌, if◌then◌else◌, leb→le, Bool-cases, Text, codes, text_eq,
  text_eq_complete, text_eq-false,
}
use native.Mathlib.Nat.{pow-suc}
use minmaxmusic3_web.Store.Rows.{Job, engine_yue2, mode_cover}

abbrev pub second : ℕ
second = 1000000000

abbrev pub minute : ℕ
minute = 60 * second

abbrev pub poll_fast : ℕ
poll_fast = 3 * second

abbrev pub poll_slow : ℕ
poll_slow = 10 * second

abbrev pub queue_budget : ℕ
queue_budget = 45 * minute

abbrev pub run_budget_minimax : ℕ
run_budget_minimax = 8 * minute

abbrev pub run_budget_yue2 : ℕ
run_budget_yue2 = 20 * minute

abbrev pub run_budget_yue2_cover : ℕ
run_budget_yue2_cover = 45 * minute

abbrev pub submit_backoff : ℕ
submit_backoff = 15 * second

abbrev pub max_submit_backoff : ℕ
max_submit_backoff = 2 * minute

abbrev pub max_transient : ℕ
max_transient = 3

abbrev pub max_store_retries : ℕ
max_store_retries = 5

unfoldable pub run_budget_for : Job → ℕ
run_budget_for j =
    if not (text_eq j.engine engine_yue2)
    then run_budget_minimax
    else if text_eq j.mode mode_cover
    then run_budget_yue2_cover
    else run_budget_yue2

-- Duration.String, at the budgets.
abbrev budget_text : ℕ → Text
budget_text b =
    if b == queue_budget
    then codes "45m0s"
    else if b == run_budget_yue2
    then codes "20m0s"
    else codes "8m0s"

unfoldable pub expired : (now : ℕ) → Job → Bool × Text
expired now j = elim j.started_at [
  | none ↦ (
    ltb (j.created_at + queue_budget) now,
    codes "timeout: no GPU capacity within " ++ budget_text queue_budget,
  )
  | some t ↦ (
    ltb (t + run_budget_for j) now,
    codes "timeout: generation exceeded " ++ budget_text (run_budget_for j),
  )
]

-- The loop over retries - 1 rounds, which a delay at the cap leaves.
unfoldable pub double_up : (rounds : ℕ) → (d : ℕ) → ℕ
double_up zero d = d
double_up (suc n) d = let rest = double_up n (d * 2) in if leb max_submit_backoff d then d else rest

unfoldable pub submit_delay : (retries : ℕ) → ℕ
unfolding double_up
submit_delay zero = 0
submit_delay (suc n) = min (double_up n submit_backoff) max_submit_backoff

unfoldable pub poll_delay : (now : ℕ) → Job → ℕ
poll_delay now j = if ltb now (j.created_at + minute) then poll_fast else poll_slow

-- What the loop is meant to compute: 15 s doubled for each further refusal, and at most 2 minutes.
abbrev pub spaced : ℕ → ℕ
spaced n = min (submit_backoff * 2 ^ n) max_submit_backoff

pow-pos : (n : ℕ) → 1 ≤ 2 ^ n
pow-pos zero = omega arith
pow-pos (suc n) = rw pow-suc (omega (arith, pow-pos n))

double_up_lem :
    (n d : ℕ) → min (double_up n d) max_submit_backoff ≡ min (d * 2 ^ n) max_submit_backoff
unfolding double_up
double_up_lem zero d = omega arith
double_up_lem (suc n) d = elim (Bool-cases (leb max_submit_backoff d)) [
  | inl capped ↦ rw (capped, pow-suc) (grind (arith, leb→le max_submit_backoff d capped, pow-pos n))
  | inr small ↦ rw (small, pow-suc) (rw (double_up_lem n (d * 2)) (grind arith))
]

submit_delay-suc : (n : ℕ) → submit_delay (suc n) ≡ spaced n
unfolding submit_delay
submit_delay-suc n = double_up_lem n submit_backoff

submit_delay_mono : (n : ℕ) → submit_delay n ≤ submit_delay (suc n)
submit_delay_mono zero = unfold submit_delay in omega arith
submit_delay_mono (suc n) =
    rw (submit_delay-suc n, submit_delay-suc (suc n)) (rw pow-suc (omega (arith, pow-pos n)))

-- The delay before a submission is 0 for one that was never refused, then 15, 30 and 60 seconds,
-- and two minutes from the fourth refusal on: 15 s times a power of two, capped. It never shrinks
-- as refusals add up.
pub submit_delay_lem :
    (n : ℕ)
    → (submit_delay zero ≡ 0)
      × (submit_delay (suc n) ≡ spaced n)
      × (submit_delay n ≤ submit_delay (suc n))
submit_delay_lem n = (unfold submit_delay in refl, submit_delay-suc n, submit_delay_mono n)

-- A job that was never picked up has outlived its budget exactly when more than 45 minutes have
-- passed since it was created. One that was, exactly when more than these have passed since the GPU
-- started: 8 minutes on any engine but YuE2, 45 minutes for a YuE2 cover, 20 minutes for any other
-- YuE2 job.
pub expired_exact :
    (now : ℕ) (j : Job)
    → (j.started_at ≡ none → (((expired now j).0 ≡ true) ↔ (j.created_at + 45 * minute < now)))
      × ((t : ℕ)
          → j.started_at ≡ some t
          → (j.engine ≢ codes "yue2" → (((expired now j).0 ≡ true) ↔ (t + 8 * minute < now)))
            × (j.engine ≡ codes "yue2"
                → j.mode ≡ codes "cover"
                → (((expired now j).0 ≡ true) ↔ (t + 45 * minute < now)))
            × (j.engine ≡ codes "yue2"
                → j.mode ≢ codes "cover"
                → (((expired now j).0 ≡ true) ↔ (t + 20 * minute < now))))
unfolding expired run_budget_for
expired_exact now j = (
  λ waiting. ground arith,
  λ t started. (
    λ other. ground (arith, text_eq-false j.engine engine_yue2 other),
    λ same cover. ground (
      arith,
      text_eq_complete j.engine engine_yue2 same,
      text_eq_complete j.mode mode_cover cover,
    ),
    λ same other.
        ground (
          arith,
          text_eq_complete j.engine engine_yue2 same,
          text_eq-false j.mode mode_cover other,
        ),
  ),
)
