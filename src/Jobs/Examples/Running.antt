-- ===== src/Jobs/Examples/Running.antt =====
-- Runs of one job (`run_one` of src/sutradhara/jobs/engine.py) on a concrete queue and handlers.
use sutradhara.Prelude.{
  ℕ, ◌+◌, ◌≡◌, refl, ◌≢◌, ◌⊎◌, inr, String, true, false, Option, none, some, [], ◌∷◌, arith, ok,
  err, string_eq, nat_eq,
}
use sutradhara.Prelude.Int.{ℤ, pos, leb_ℤ}
use sutradhara.Jobs.Config.{IsUniform, retry_for_kind, delay_seconds, jittered_backoff_seconds}
use sutradhara.Jobs.Model.{running, failed, is_failed}
use sutradhara.Jobs.Context.{job_context}
use sutradhara.Jobs.Store.{Db, find_job, save_job, record_attempt, new_attempt}
use sutradhara.Jobs.Engine.{claim_job_by_id, claimed_row}
use sutradhara.Jobs.Run.{
  Instants, JobResult, Handler, HandlerRun, returned, raised, run_one, conclude, apply_retry_policy,
  failure, dispatch, execute, fail, finish, claim_and_execute, record_reconciler_condition,
}
use sutradhara.Jobs.Run.Outcome.{Ended, RolledBack, conclude-RolledBack}
use sutradhara.Jobs.Run.Ended.{KeepsRow, run_one-Ended}
use sutradhara.Jobs.Run.Retry.{Requeued, retry-Requeued}
use sutradhara.Jobs.Examples.{three_jobs, job_with, config, draw_lower}

abbrev pub clock : Instants
clock = record { claimed_at = 10; finished_at = 20; recorded_at = 21; draw = draw_lower }

abbrev pub success : JobResult
success = record { succeeds = true; detail = ""; step_state = []; condition = none }

-- A handler that writes to the catalog and returns, and one that raises after such a write.
abbrev pub counts : Handler ℕ
counts db job ctx = record {
  db = record db { catalog = db.catalog + 1 };
  ctx = ctx;
  batches = [];
  batch_state_touched = false;
  exit = returned success;
}

abbrev crashes : Handler ℕ
crashes db job ctx = record {
  db = record db { catalog = db.catalog + 1 };
  ctx = ctx;
  batches = ("tape", []) ∷ [];
  batch_state_touched = true;
  exit = raised "Traceback" "boom" true;
}

abbrev pub str_int : ℤ → String
str_int n = "0"

abbrev pub only : Handler ℕ → String → Option (Handler ℕ)
only h kind = some h

abbrev pub message : String → String
message kind = kind

pub counts-KeepsRow : (kind : String) (h : Handler ℕ) → only counts kind ≡ some h → KeepsRow h
counts-KeepsRow kind h e = record { kept = λ db job ctx stored gone. ground arith }

abbrev after_run : Db ℕ
after_run = elim (run_one clock "host" str_int message (only counts) three_jobs [] 1 three_jobs) [
  | ok (db, r) ↦ db
  | err e ↦ three_jobs
]

run_returns :
    run_one clock "host" str_int message (only counts) three_jobs [] 1 three_jobs
    ≡ ok (after_run, success)
unfolding run_one dispatch claim_and_execute claim_job_by_id claimed_row execute conclude finish
    record_reconciler_condition record_attempt new_attempt find_job save_job
run_returns = refl

run_one-Ended_example : Ended clock [] 1 success after_run
run_one-Ended_example =
    run_one-Ended clock "host" str_int message (only counts) three_jobs [] counts-KeepsRow 1
      three_jobs after_run success run_returns

crashed : HandlerRun ℕ
crashed =
    crashes three_jobs (job_with 1 running none)
      (job_context "host" str_int [] (job_with 1 running none))

abbrev after_crash : Db ℕ
after_crash = elim (conclude clock three_jobs [] (job_with 1 running none) three_jobs crashed) [
  | ok (db, r) ↦ db
  | err e ↦ three_jobs
]

crash_returns :
    conclude clock three_jobs [] (job_with 1 running none) three_jobs crashed
    ≡ ok (after_crash, failure "boom")
unfolding conclude fail finish record_reconciler_condition crashed record_attempt new_attempt
    save_job
crash_returns = refl

crashed_raised : crashed.exit ≡ raised "Traceback" "boom" true
unfolding crashed
crashed_raised = refl

conclude-RolledBack_example :
    RolledBack clock [] "Traceback" crashed
      (job_with 1 running none)
      three_jobs
      (failure "boom")
      after_crash
conclude-RolledBack_example =
    conclude-RolledBack clock [] three_jobs three_jobs after_crash (job_with 1 running none)
      (failure "boom") crashed "Traceback" "boom" (inr crashed_raised) crash_returns

pub draw_lower-IsUniform : IsUniform draw_lower
draw_lower-IsUniform = record { bounds = λ lower upper le. omega arith }

abbrev retried : Db ℕ
retried = elim (apply_retry_policy draw_lower config 30 (job_with 3 failed none) three_jobs) [
  | ok db ↦ db
  | err e ↦ three_jobs
]

three_found : find_job 3 three_jobs.jobs ≢ none
unfolding find_job
three_found e = ground arith

retry_returns :
    apply_retry_policy draw_lower config 30 (job_with 3 failed none) three_jobs ≡ ok retried
unfolding apply_retry_policy retry_for_kind delay_seconds jittered_backoff_seconds save_job
retry_returns = refl

retry-Requeued_example :
    (retried ≡ three_jobs)
      × ((is_failed failed ≡ false)
          ⊎ (leb_ℤ (retry_for_kind config "copy").max_attempts (pos 1) ≡ true))
    ⊎ Requeued config 30 (job_with 3 failed none) three_jobs retried
retry-Requeued_example =
    retry-Requeued draw_lower config 30 (job_with 3 failed none) three_jobs retried
      draw_lower-IsUniform three_found retry_returns

-- A job that was claimed, lost with its worker, recovered and claimed again.
