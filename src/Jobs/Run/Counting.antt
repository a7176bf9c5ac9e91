-- ===== src/Jobs/Run/Counting.antt =====
-- What a run leaves of the attempt count (`run_one` of src/sutradhara/jobs/engine.py).
use sutradhara.Prelude.{
  ℕ, ◌≡◌, ◌≢◌, refl, ◌⊎◌, ap, ◌∙◌, inl, inr, String, true, false, Option, none, some, arith, ok,
  Option-cases, Bool-cases,
}
use sutradhara.Prelude.Int.{ℤ}
use sutradhara.Jobs.Leases.{Resources}
use sutradhara.Jobs.Model.{Job, running, succeeded, failed, Phase}
use sutradhara.Jobs.Conditions.{Projection}
use sutradhara.Jobs.Context.{JobContext, job_context}
use sutradhara.Jobs.Store.{Db, find_job}
use sutradhara.Jobs.Store.Rows.{find-save_self, id_of_find}
use sutradhara.Jobs.Run.{
  Instants, JobResult, Handler, HandlerRun, HandlerExit, returned, not_implemented, locked, raised,
  finish, fail, conclude, execute, run_one, dispatch, failed_row, result_row, result_projection,
  restore_batches, refreshed, failure, failing,
}
use sutradhara.Jobs.Run.Outcome.{finish-parts}

-- A handler leaves the row of its job there, with its attempts and its kind.
pub record KeepsCount {C : Type 0} (handler : Handler C) : Type 0 where
  pub kept :
      (db : Db C) (job : Job) (ctx : JobContext)
      → find_job job.id db.jobs ≡ some job
      → (row : Job) × (find_job job.id (handler db job ctx).db.jobs ≡ some row)
        × (row.attempts ≡ job.attempts)
        × (row.kind ≡ job.kind)

-- The row of a job that has ended, with its attempts and its kind.
pub record EndedRow {C : Type 0} (job : Job) (db : Db C) : Type 0 where
  pub row : Job
  pub found : find_job job.id db.jobs ≡ some row
  pub ended : (row.status ≡ succeeded) ⊎ (row.status ≡ failed)
  pub attempts : row.attempts ≡ job.attempts
  pub kind : row.kind ≡ job.kind

module _ {C : Type 0} (at : Instants) (granted : Resources) where
  finish-EndedRow :
      (ctx : JobContext) (p : Projection) (result r : JobResult) (job row : Job) (db db' : Db C)
      → finish at granted ctx p result row db ≡ ok (db', r)
      → find_job job.id db.jobs ≢ none
      → row.id ≡ job.id
      → (row.status ≡ succeeded) ⊎ (row.status ≡ failed)
      → row.attempts ≡ job.attempts
      → row.kind ≡ job.kind
      → EndedRow job db'
  finish-EndedRow ctx p result r job row db db' h there same ended attempts kind =
      let (_, jobs, _, _) = finish-parts at granted ctx p result r row db db' h in
      let self = find-save_self row db.jobs (λ e. there (cc (same, e))) in
      record {
        row = row;
        found = cc (same, jobs, self);
        ended = ended;
        attempts = attempts;
        kind = kind;
      }

  fail-EndedRow :
      (ctx : JobContext) (phase : Phase) (reason text message : String) (job from : Job)
      (r : JobResult) (db db' : Db C)
      → fail at granted ctx phase reason text message from db ≡ ok (db', r)
      → find_job job.id db.jobs ≢ none
      → from.id ≡ job.id
      → from.attempts ≡ job.attempts
      → from.kind ≡ job.kind
      → EndedRow job db'
  unfolding fail
  fail-EndedRow ctx phase reason text message job from r db db' h there same attempts kind =
      finish-EndedRow ctx (failing phase reason message) (failure message) r job
        (failed_row at.finished_at text from) db db' h there same (inr refl) attempts kind

  module _ (db db' : Db C) (job : Job) (r : JobResult) (run : HandlerRun C)
      (there : find_job job.id db.jobs ≡ some job) where
    there_is : find_job job.id db.jobs ≢ none
    there_is e = absurd (cc (there, e))

    refreshed_is : (row : Job) → find_job job.id run.db.jobs ≡ some row → refreshed run.db job ≡ row
    refreshed_is row kept = ground arith

    result_ended :
        (x : JobResult) (row : Job)
        → ((result_row at.finished_at x row).status ≡ succeeded)
          ⊎ ((result_row at.finished_at x row).status ≡ failed)
    result_ended x row = elim (Bool-cases x.succeeds) [
      | inl e ↦ inl (ground arith)
      | inr e ↦ inr (ground arith)
    ]

    conclude-EndedRow :
        (row : Job)
        → find_job job.id run.db.jobs ≡ some row
        → row.attempts ≡ job.attempts
        → row.kind ≡ job.kind
        → conclude at db granted job db run ≡ ok (db', r)
        → EndedRow job db'
    unfolding conclude
    conclude-EndedRow row kept attempts kind h = go run.exit refl
      where
        same : refreshed run.db job ≡ row
        same = refreshed_is row kept

        go : (x : HandlerExit) → run.exit ≡ x → EndedRow job db'
        go (returned x) e =
            finish-EndedRow run.ctx (result_projection x) x r job
              (result_row at.finished_at x (refreshed run.db job)) run.db db' (rw e at h)
              (λ gone. absurd (cc (kept, gone)))
              (ap (λ (j : Job). j.id) same ∙ id_of_find job.id row run.db.jobs kept)
              (result_ended x (refreshed run.db job)) (ap (λ (j : Job). j.attempts) same ∙ attempts)
              (ap (λ (j : Job). j.kind) same ∙ kind)
        go (not_implemented text message) e =
            fail-EndedRow run.ctx Phase.blocked "not-implemented" text message job
              (restore_batches run job) r db db' (rw e at h) there_is (ground arith) (ground arith)
              (ground arith)
        go locked e = absurd (ground arith)
        go (raised text message true) e =
            fail-EndedRow run.ctx Phase.backoff "handler-exception" text message job
              (restore_batches run job) r db db' (rw e at h) there_is (ground arith) (ground arith)
              (ground arith)
        go (raised text message false) e =
            fail-EndedRow run.ctx Phase.backoff "handler-exception" text message job job r db db'
              (rw (e, there) at h) there_is refl refl refl

module _ {C : Type 0} (at : Instants) (hostname : String) (str_int : ℤ → String)
    (unregistered : String → String) (handlers : String → Option (Handler C)) (granted : Resources)
    (keep : (kind : String) (handler : Handler C)
      → handlers kind ≡ some handler
      → KeepsCount handler) where
  execute-EndedRow :
      (job : Job) (db db' : Db C) (r : JobResult)
      → find_job job.id db.jobs ≡ some job
      → execute at hostname str_int unregistered handlers db granted job db ≡ ok (db', r)
      → EndedRow job db'
  unfolding execute
  execute-EndedRow job db db' r there h =
      let ctx = job_context hostname str_int granted job in
      elim (Option-cases (handlers job.kind)) [
        | inl missing ↦
            fail-EndedRow at granted ctx Phase.backoff "handler-not-registered"
              (unregistered job.kind) (unregistered job.kind) job job r db db'
              (rw (missing, execute) at h) (λ e. absurd (cc (there, e))) refl refl refl
        | inr (handler, found) ↦
            let (row, kept, attempts, kind) = (keep job.kind handler found).kept db job ctx there in
            conclude-EndedRow at granted db db' job r (handler db job ctx) there row kept attempts
              kind (rw (found, execute) at h)
      ]

  -- A run of a running job that returns has ended it, with its attempts and its kind.
  pub run_one-EndedRow :
      (id : ℕ) (job : Job) (db db' : Db C) (r : JobResult)
      → find_job id db.jobs ≡ some job
      → job.status ≡ running
      → run_one at hostname str_int unregistered handlers db granted id db ≡ ok (db', r)
      → EndedRow job db'
  unfolding run_one dispatch
  run_one-EndedRow id job db db' r found busy h =
      let same = id_of_find id job db.jobs found in
      execute-EndedRow job db db' r (cc (same, found)) (ground arith)
