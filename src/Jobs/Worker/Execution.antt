-- ===== src/Jobs/Worker/Execution.antt =====
-- The execution of a claimed job (`_execute_job_once`, `_execute_job`, `_persist_lock_failure` of
-- src/sutradhara/jobs/worker.py). An attempt whose transaction finds the database locked is rolled
-- back whole and tried again; `meanwhile` is what other sessions commit before a try.
use sutradhara.Prelude.{
  ℕ, zero, suc, String, Bool, true, false, not, Option, none, some, if◌then◌else◌, ok, err, ◌>>=◌,
}
use sutradhara.Jobs.Leases.{Resources}
use sutradhara.Jobs.Config.{WorkerConfig}
use sutradhara.Jobs.Model.{Job, backoff}
use sutradhara.Jobs.Context.{job_context, attempt_detail}
use sutradhara.Jobs.Store.{Db, find_job, put_job, record_attempt}
use sutradhara.Jobs.Engine.{Engine, sqlite_locked}
use sutradhara.Jobs.Run.{
  JobResult, Handler, failing, failure, failed_row, record_reconciler_condition, run_one,
  apply_retry_policy,
}
use sutradhara.Jobs.Worker.{Surroundings, execution, persist}

pub record WorkerJobOutcome : Type 0 where
  pub job_id : ℕ
  pub result : JobResult
  pub granted_leases : Resources
  pub failure_record_pending : Bool

-- What an execution takes from its surroundings besides those of the worker.
pub record Executor (C : Type 0) : Type 0 where
  pub handlers : String → Option (Handler C)
  pub unregistered : String → String
  pub config : WorkerConfig
  pub retried_at : ℕ
  pub lock_text : String
  pub meanwhile : ℕ → Db C → Db C

-- `len(_LOCK_BACKOFF)`
abbrev pub lock_backoffs : ℕ
lock_backoffs = 4

module _ {C : Type 0} (env : Surroundings C) (x : Executor C) where
  unfoldable pub retry_if_plain : Db C → JobResult → Option Job → Engine (Db C × JobResult)
  retry_if_plain db r none = ok (db, r)
  retry_if_plain db r (some job) = elim job.recon_domain [
    | some domain ↦ ok (db, r)
    | none ↦ do db' ← apply_retry_policy env.at.draw x.config x.retried_at job db; ok (db', r)
  ]

  abbrev pub run : ℕ → Resources → Db C → Engine (Db C × JobResult)
  run id granted db =
      run_one env.at env.hostname env.str_int x.unregistered x.handlers db granted id db

  unfoldable pub execute_job_once : ℕ → Resources → Db C → Engine (Db C × JobResult)
  unfolding retry_if_plain
  execute_job_once id granted db = do
    (db', r) ← run id granted db
    retry_if_plain db' r (find_job id db'.jobs)

  -- the row of a job whose attempts all found the database locked, with its audit row
  unfoldable pub record_exhausted : Resources → String → Job → Db C → Engine (Db C × Bool)
  record_exhausted granted detail job db =
      let row = failed_row env.at.finished_at detail job in
      let ctx = job_context env.hostname env.str_int granted row in
      let (recorded, attempt) =
        record_attempt env.at.finished_at row granted (attempt_detail row ctx) (put_job row db) in
      do
        db' ←
            record_reconciler_condition env.at (failing backoff "sqlite-lock-exhausted" detail) row
              attempt recorded
        ok (db', true)

  abbrev pub record_if_found : Resources → String → Db C → Option Job → Engine (Db C × Bool)
  record_if_found granted detail db none = ok (db, true)
  record_if_found granted detail db (some job) = record_exhausted granted detail job db

  -- `_persist_lock_failure`: whether the failure is recorded
  unfoldable pub persist_lock_failure : ℕ → Resources → String → Db C → Engine (Db C × Bool)
  unfolding record_exhausted
  persist_lock_failure id granted detail db =
      if env.contended (persist id)
      then ok (db, false)
      else record_if_found granted detail db (find_job id db.jobs)

  abbrev pub outcome : ℕ → Resources → JobResult → Bool → WorkerJobOutcome
  outcome id granted r recorded = record {
    job_id = id;
    result = r;
    granted_leases = granted;
    failure_record_pending = not recorded;
  }

  -- A try of the attempt, where its transaction may find the database locked at any statement.
  abbrev pub tried : ℕ → ℕ → Resources → Db C → Engine (Db C × JobResult)
  tried n id granted db =
      if env.contended (execution id n) then err sqlite_locked else execute_job_once id granted db

  -- What a try comes to; `again` is the rest of the tries.
  abbrev pub unless_locked :
      ℕ
      → Resources
      → Engine (Db C × WorkerJobOutcome)
      → Engine (Db C × JobResult)
      → Engine (Db C × WorkerJobOutcome)
  unless_locked id granted again (ok (db, r)) = ok (db, outcome id granted r true)
  unless_locked id granted again (err sqlite_locked) = again
  unless_locked id granted again (err e) = err e

  -- The tries that are left, and then the record of the failure.
  unfoldable pub try_job : ℕ → ℕ → Resources → Db C → Engine (Db C × WorkerJobOutcome)
  unfolding execute_job_once persist_lock_failure
  try_job zero id granted db = do
    (db', recorded) ← persist_lock_failure id granted x.lock_text (x.meanwhile zero db)
    ok (db', outcome id granted (failure x.lock_text) recorded)
  try_job (suc n) id granted db =
      let current = x.meanwhile (suc n) db in
      unless_locked id granted (try_job n id granted current) (tried (suc n) id granted current)

  -- `_execute_job`
  unfoldable pub execute_job : ℕ → Resources → Db C → Engine (Db C × WorkerJobOutcome)
  unfolding try_job
  execute_job = try_job (suc lock_backoffs)
