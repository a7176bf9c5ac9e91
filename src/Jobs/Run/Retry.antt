-- ===== src/Jobs/Run/Retry.antt =====
-- Retries (`apply_retry_policy` of src/sutradhara/jobs/engine.py): when a job goes back into the queue,
-- and when it is due again.
use sutradhara.Prelude.{
  ℕ, refl, ◌+◌, ◌-◌, ◌*◌, ◌^◌, ◌≤◌, ◌≡◌, ◌≢◌, ◌⊎◌, inl, inr, true, false, none, some, arith, ok,
  Result-cases, Bool-cases, subst, sym,
}
use sutradhara.Prelude.Int.{ℤ, pos, pos_part, leb_ℤ}
use sutradhara.Jobs.Config.{WorkerConfig, RetryPolicy, IsUniform, retry_for_kind, delay_seconds}
use sutradhara.Jobs.Config.Backoff.{jittered-le}
use sutradhara.Jobs.Model.{Job, pending, failed, is_failed}
use sutradhara.Jobs.Store.{Db, find_job, put_job}
use sutradhara.Jobs.Store.Rows.{find-save_self}
use sutradhara.Jobs.Run.{apply_retry_policy, requeued}

delay-le :
    (draw : ℕ → ℕ → ℕ) (retry : RetryPolicy) (attempts : ℕ) (max_seconds : ℤ) (delay : ℕ)
    → IsUniform draw
    → delay_seconds draw retry attempts max_seconds ≡ ok delay
    → delay ≤ pos_part max_seconds * 1000000
unfolding delay_seconds
delay-le draw retry attempts max_seconds delay u h = ground (
  arith,
  jittered-le draw u (pos_part retry.backoff_seconds * 2 ^ (attempts - 1)) (pos_part max_seconds)
      delay,
)

-- The job went back into the queue under its policy.
pub record Requeued {C : Type 0} (config : WorkerConfig) (now : ℕ) (job : Job) (db db' : Db C)
    : Type 0 where
  pub failed_job : job.status ≡ failed
  pub attempts_left : leb_ℤ (retry_for_kind config job.kind).max_attempts (pos job.attempts) ≡ false
  pub due : ℕ
  pub row : Job
  pub stored : find_job job.id db'.jobs ≡ some row
  pub others : db' ≡ put_job row db
  pub waits : row.status ≡ pending
  pub due_at : row.not_before ≡ due
  pub attempts : row.attempts ≡ job.attempts
  pub kept :
      record row {
        status = job.status;
        not_before = job.not_before;
        started_at = job.started_at;
        finished_at = job.finished_at;
      }
      ≡ job
  pub not_early : now ≤ due
  pub not_late : due ≤ now + pos_part config.max_backoff_seconds * 1000000

module _ {C : Type 0} (draw : ℕ → ℕ → ℕ) (config : WorkerConfig) (now : ℕ) (job : Job)
    (db db' : Db C) where
  -- Where the row of the job is there and random draws keep to their bounds, a retry that returns
  -- either changes nothing, since the job has not failed or has used up its attempts, or the job
  -- had failed with attempts left, and its row alone is replaced by one that is pending, due at
  -- some time from now to the longest backoff, with the same attempt count and every column but
  -- the status and the times as before.
  pub retry-Requeued :
      IsUniform draw
      → find_job job.id db.jobs ≢ none
      → apply_retry_policy draw config now job db ≡ ok db'
      → (db' ≡ db)
          × ((is_failed job.status ≡ false)
              ⊎ (leb_ℤ (retry_for_kind config job.kind).max_attempts (pos job.attempts) ≡ true))
        ⊎ Requeued config now job db db'
  unfolding apply_retry_policy
  retry-Requeued u stored h = elim (Bool-cases (is_failed job.status)) [
    | inr fine ↦ inl (ground arith, inl fine)
    | inl bad ↦
        elim (Bool-cases (leb_ℤ (retry_for_kind config job.kind).max_attempts (pos job.attempts))) [
          | inl spent ↦ inl (ground arith, inr spent)
          | inr left ↦
              elim (Result-cases (
                delay_seconds draw (retry_for_kind config job.kind) job.attempts
                  config.max_backoff_seconds)) [
                    | inr (x, e) ↦ absurd (ground arith)
                    | inl (delay, e) ↦
                        let bound =
                          delay-le draw (retry_for_kind config job.kind) job.attempts
                            config.max_backoff_seconds delay u e in
                        let put : db' ≡ put_job (requeued (now + delay) job) db = ground arith in
                        inr (record {
                          failed_job = ground arith;
                          attempts_left = left;
                          due = now + delay;
                          row = requeued (now + delay) job;
                          others = put;
                          waits = refl;
                          due_at = refl;
                          attempts = refl;
                          kept = refl;
                          stored =
                              subst
                                (λ (d : Db C).
                                  find_job job.id d.jobs ≡ some (requeued (now + delay) job))
                                (sym put)
                                (find-save_self (requeued (now + delay) job) db.jobs stored);
                          not_early = omega arith;
                          not_late = omega (arith, bound);
                        })
                  ]
        ]
  ]
