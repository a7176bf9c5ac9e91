-- ===== src/Jobs/Worker/Lifetime.antt =====
-- How often a job is claimed (`_claim_job_by_id`, `run_one`, `apply_retry_policy` and
-- `reset_orphaned_running_jobs` of src/sutradhara/jobs/engine.py, `_mark_never_fits` and
-- `_persist_lock_failure` of src/sutradhara/jobs/worker.py).
use sutradhara.Prelude.{
  ℕ, suc, ◌+◌, ◌≤◌, ◌≡◌, refl, ◌∙◌, String, Bool, Option, some, max, arith, ok,
}
use sutradhara.Prelude.Int.{pos_part}
use sutradhara.Jobs.Leases.{Resources}
use sutradhara.Jobs.Config.{WorkerConfig, IsUniform, retry_for_kind}
use sutradhara.Jobs.Model.{Job, JobStatus, pending, running}
use sutradhara.Jobs.Store.{Db, find_job}
use sutradhara.Jobs.Engine.{Request, new_job, claim_job_by_id}
use sutradhara.Jobs.Run.{
  Instants, JobResult, Handler, run_one, apply_retry_policy, reset_orphaned_running_jobs,
}
use sutradhara.Jobs.Run.Counting.{KeepsCount, run_one-EndedRow}
use sutradhara.Jobs.Worker.{Surroundings, mark_never_fits}
use sutradhara.Jobs.Worker.Execution.{Executor, persist_lock_failure}
use sutradhara.Jobs.Worker.Standing.{
  spent, counted, Stands, claim-Standing, mark-Standing, run-Standing, retry-Standing,
  recover-Standing, persist-Standing,
}

module _ {C : Type 0} (env : Surroundings C) (config : WorkerConfig) (draw : ℕ → ℕ → ℕ)
    (unregistered : String → String) (handlers : String → Option (Handler C)) (id : ℕ)
    (kind : String) where
  -- The databases in the life of one job under the worker, with the claims and the recoveries so far:
  -- each step is an operation of the engine or the worker, or anything that leaves its row alone. A run
  -- is of a claimed job, in a session that goes back to the database it began with.
  pub data Life : ℕ → ℕ → Db C → Type 0 where
    submitted :
        (now : ℕ) (r : Request) (db : Db C)
        → find_job id db.jobs ≡ some (new_job id now r)
        → (new_job id now r).kind ≡ kind
        → Life 0 0 db
    claimed :
        {n m : ℕ} {db : Db C} (now : ℕ) (db' : Db C) (row : Job)
        → Life n m db
        → claim_job_by_id id now db ≡ some (db', row)
        → Life (suc n) m db'
    never_fitted :
        {n m : ℕ} {db : Db C} (text : String) (job : Job) (db' : Db C)
        → Life n m db
        → find_job id db.jobs ≡ some job
        → job.status ≡ pending
        → mark_never_fits env text job db ≡ ok db'
        → Life (suc n) m db'
    ran :
        {n m : ℕ} {db : Db C} (at : Instants) (granted : Resources) (job : Job) (db' : Db C)
        (r : JobResult)
        → Life n m db
        → find_job id db.jobs ≡ some job
        → job.status ≡ running
        → run_one at env.hostname env.str_int unregistered handlers db granted id db ≡ ok (db', r)
        → Life n m db'
    retried :
        {n m : ℕ} {db : Db C} (now : ℕ) (job : Job) (db' : Db C)
        → Life n m db
        → find_job id db.jobs ≡ some job
        → apply_retry_policy draw config now job db ≡ ok db'
        → Life n m db'
    recovered :
        {n m : ℕ} {db : Db C} (now : ℕ) (marker : String)
        → Life n m db
        → Life n (counted (find_job id db.jobs) m) (reset_orphaned_running_jobs now marker db).0
    written_off :
        {n m : ℕ} {db : Db C} (x : Executor C) (granted : Resources) (detail : String) (db' : Db C)
        (b : Bool)
        → Life n m db
        → persist_lock_failure env x id granted detail db ≡ ok (db', b)
        → Life n m db'
    elsewhere :
        {n m : ℕ} {db : Db C} (db' : Db C)
        → Life n m db
        → find_job id db'.jobs ≡ find_job id db.jobs
        → Life n m db'

  module _ (u : IsUniform draw)
      (keep : (k : String) (handler : Handler C)
        → handlers k ≡ some handler
        → KeepsCount handler) where
    life-Standing : (n m : ℕ) (db : Db C) → Life n m db → Stands env config id kind n m db
    unfolding new_job
    life-Standing _ _ db (submitted now r _ found kind') = record {
      row = new_job id now r;
      found = found;
      attempts = refl;
      same_kind = kind';
      within = omega arith;
    }
    life-Standing _ _ db' (claimed {n} {m} {db} now _ row l h) =
        claim-Standing env config id kind n m now db db' row (life-Standing n m db l) h
    life-Standing _ _ db' (never_fitted {n} {m} {db} text job _ l found idle h) =
        mark-Standing env config id kind n m text job db db' (life-Standing n m db l) found idle h
    life-Standing n m db' (ran {db} at granted job _ r l found busy h) =
        run-Standing env config id kind n m job db db' (life-Standing n m db l) found busy (
          run_one-EndedRow at env.hostname env.str_int unregistered handlers granted keep id job db
            db' r found busy h)
    life-Standing n m db' (retried {db} now job _ l found h) =
        retry-Standing env config id kind n m now draw job db db' (life-Standing n m db l) u found h
    life-Standing n _ _ (recovered {m} {db} now marker l) =
        recover-Standing env config id kind n m now marker db (life-Standing n m db l)
    life-Standing n m db' (written_off {db} x granted detail _ b l h) =
        persist-Standing env config id kind x granted detail n m db db' b (life-Standing n m db l) h
    life-Standing n m db' (elsewhere {db} _ l same) =
        let s = life-Standing n m db l in
        record {
          row = s.row;
          found = same ∙ s.found;
          attempts = s.attempts;
          same_kind = s.same_kind;
          within = s.within;
        }

    -- Where random draws keep to their bounds and every handler leaves its row there with its
    -- attempts and its kind, a job that was submitted and since then only claimed, marked as never
    -- fitting, run when claimed, written off after a locked database, retried, recovered or left
    -- alone, in any order, has been claimed or so marked at most as often as the retry policy of
    -- its kind allows, once at least, and once more for each recovery that found it running.
    pub claims_bounded :
        (n m : ℕ) (db : Db C)
        → Life n m db
        → n ≤ max 1 (pos_part (retry_for_kind config kind).max_attempts) + m
    claims_bounded n m db l = let s = life-Standing n m db l in bound s.row.status s.within
      where
        bound :
            (t : JobStatus)
            → spent t n ≤ max 1 (pos_part (retry_for_kind config kind).max_attempts) + m
            → n ≤ max 1 (pos_part (retry_for_kind config kind).max_attempts) + m
        bound t w = ground arith
