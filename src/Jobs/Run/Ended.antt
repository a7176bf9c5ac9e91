-- ===== src/Jobs/Run/Ended.antt =====
-- Every run that returns ends its job (`run_one` of src/sutradhara/jobs/engine.py).
use sutradhara.Prelude.{
  ℕ, ◌≡◌, refl, ◌≢◌, sym, subst, ◌∙◌, inl, inr, String, Option, none, some, arith, Option-cases, ok,
}
use sutradhara.Prelude.Int.{ℤ}
use sutradhara.Jobs.Leases.{Resources}
use sutradhara.Jobs.Model.{Job, JobStatus, pending, running, Phase}
use sutradhara.Jobs.Context.{JobContext, job_context}
use sutradhara.Jobs.Store.{Db, find_job}
use sutradhara.Jobs.Store.Rows.{id_of_find}
use sutradhara.Jobs.Engine.{Engine, claim_job_by_id}
use sutradhara.Jobs.Engine.Claims.{claim-stored}
use sutradhara.Jobs.Run.{
  Instants, JobResult, Handler, fail, conclude, execute, claim_and_execute, dispatch, run_one,
}
use sutradhara.Jobs.Run.Outcome.{Ended, fail-Ended, conclude-Ended}

-- A handler may rewrite the row of its job, and does not delete it.
pub record KeepsRow {C : Type 0} (handler : Handler C) : Type 0 where
  pub kept :
      (db : Db C) (job : Job) (ctx : JobContext)
      → find_job job.id db.jobs ≢ none
      → find_job job.id (handler db job ctx).db.jobs ≢ none

module _ {C : Type 0} (at : Instants) (hostname : String) (str_int : ℤ → String)
    (unregistered : String → String) (handlers : String → Option (Handler C)) (committed : Db C)
    (granted : Resources)
    (keep : (kind : String) (handler : Handler C)
      → handlers kind ≡ some handler
      → KeepsRow handler) where
  abbrev executed : Job → Db C → Engine (Db C × JobResult)
  executed = execute at hostname str_int unregistered handlers committed granted

  execute-missing :
      (job : Job) (db : Db C)
      → handlers job.kind ≡ none
      → executed job db
        ≡ fail at granted
            (job_context hostname str_int granted job)
            Phase.backoff
            "handler-not-registered"
            (unregistered job.kind)
            (unregistered job.kind)
            job
            db
  unfolding execute
  execute-missing job db missing = rw (missing, execute)

  execute-found :
      (job : Job) (db : Db C) (handler : Handler C)
      → handlers job.kind ≡ some handler
      → executed job db
        ≡ conclude at committed granted job db
            (handler db job (job_context hostname str_int granted job))
  unfolding execute
  execute-found job db handler found = rw (found, execute)

  execute-Ended :
      (job : Job) (db db' : Db C) (r : JobResult)
      → find_job job.id db.jobs ≢ none
      → executed job db ≡ ok (db', r)
      → Ended at granted job.id r db'
  execute-Ended job db db' r stored h =
      let ctx = job_context hostname str_int granted job in
      elim (Option-cases (handlers job.kind)) [
        | inl missing ↦
            fail-Ended at granted ctx Phase.backoff "handler-not-registered" (unregistered job.kind)
              (unregistered job.kind) job r db db' (sym (execute-missing job db missing) ∙ h) stored
        | inr (handler, found) ↦
            conclude-Ended at granted committed db db' job r (handler db job ctx) stored
              ((keep job.kind handler found).kept db job ctx stored)
              (sym (execute-found job db handler found) ∙ h)
      ]

  execute_at-Ended :
      (id : ℕ) (job : Job) (db db' : Db C) (r : JobResult)
      → find_job id db.jobs ≡ some job
      → executed job db ≡ ok (db', r)
      → Ended at granted id r db'
  execute_at-Ended id job db db' r found h =
      let same = id_of_find id job db.jobs found in
      subst (λ i. Ended at granted i r db') same
        (execute-Ended job db db' r (λ e. cc (same, found, e)) h)

  claim-Ended :
      (id : ℕ) (db db' : Db C) (r : JobResult)
      → claim_and_execute at hostname str_int unregistered handlers committed granted
          (claim_job_by_id id at.claimed_at db)
        ≡ ok (db', r)
      → Ended at granted id r db'
  unfolding claim_and_execute
  claim-Ended id db db' r h = elim (Option-cases (claim_job_by_id id at.claimed_at db)) [
    | inl none' ↦ absurd (ground arith)
    | inr ((db₁, row), claimed) ↦
        execute_at-Ended id row db₁ db' r (claim-stored id at.claimed_at db db₁ row claimed).0
          (rw claimed at h)
  ]

  -- Where no handler deletes the row of its job, a run that returns has ended its job: the row is
  -- succeeded or failed as the result says, it is finished at the time of the run, and the last
  -- attempt of the database has the job's id, that outcome, the row's attempt count and the leases
  -- that were granted.
  pub run_one-Ended :
      (id : ℕ) (db db' : Db C) (r : JobResult)
      → run_one at hostname str_int unregistered handlers committed granted id db ≡ ok (db', r)
      → Ended at granted id r db'
  unfolding run_one dispatch
  run_one-Ended id db db' r h = elim (Option-cases (find_job id db.jobs)) [
    | inl none' ↦ absurd (ground arith)
    | inr (job, found) ↦ by_status job found job.status refl
  ]
    where
      by_status :
          (job : Job)
          → find_job id db.jobs ≡ some job
          → (s : JobStatus) → job.status ≡ s
          → Ended at granted id r db'
      by_status job found pending e = claim-Ended id db db' r (ground arith)
      by_status job found running e = execute_at-Ended id job db db' r found (ground arith)
      by_status job found _ e = absurd (ground arith)
