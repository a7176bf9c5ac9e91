-- ===== src/Jobs/Run/Outcome.antt =====
-- How a run ends (`run_one` of src/sutradhara/jobs/engine.py): the row and the attempt agree with the
-- result, and what a failed handler wrote is rolled back.
use sutradhara.Prelude.{
  ℕ, ◌∙◌, ◌≡◌, refl, ◌≢◌, subst, ◌⊎◌, inl, inr, String, true, false, none, some, List, [], ◌∷◌,
  ◌++◌, arith, Option-cases, if◌then◌else◌, ok,
}
use sutradhara.Jobs.Leases.{Resources}
use sutradhara.Jobs.Model.{Job, JobStatus, JobAttempt, succeeded, failed, Phase}
use sutradhara.Jobs.Conditions.{Projection}
use sutradhara.Jobs.Context.{JobContext, attempt_detail}
use sutradhara.Jobs.Store.{Db, find_job, save_job, new_attempt, record_attempt}
use sutradhara.Jobs.Store.Rows.{find-save_self, id_of_find}
use sutradhara.Jobs.Run.{
  Instants, JobResult, HandlerRun, HandlerExit, returned, not_implemented, locked, raised, finish,
  fail, conclude, record_reconciler_condition, failed_row, result_row, result_projection,
  restore_batches, refreshed, failure, failing,
}

abbrev pub outcome_of : JobResult → JobStatus
outcome_of r = if r.succeeds then succeeded else failed

module _ {C : Type 0} (at : Instants) (granted : Resources) where
  -- The job of `id` has ended with the result `r`, and the last attempt is the record of that.
  pub record Ended (id : ℕ) (r : JobResult) (db : Db C) : Type 0 where
    pub row : Job
    pub found : find_job id db.jobs ≡ some row
    pub status : row.status ≡ outcome_of r
    pub finished : row.finished_at ≡ some at.finished_at
    pub earlier : List JobAttempt
    pub attempt : JobAttempt
    pub appended : db.attempts ≡ earlier ++ attempt ∷ []
    pub job : attempt.job_id ≡ id
    pub outcome : attempt.outcome ≡ outcome_of r
    pub number : attempt.attempt_number ≡ row.attempts
    pub leases : attempt.granted_leases ≡ granted

  module _ (ctx : JobContext) (p : Projection) (result r : JobResult) (job : Job)
      (db db' : Db C) where
    pub finish-parts :
        finish at granted ctx p result job db ≡ ok (db', r)
        → (r ≡ result)
          × (db'.jobs ≡ save_job job db.jobs)
          × (db'.catalog ≡ db.catalog)
          × (db'.attempts
              ≡ db.attempts
                ++ new_attempt at.finished_at job granted
                    (attempt_detail job ctx)
                    db.next_attempt_id
                  ∷ [])
    unfolding finish record_attempt record_reconciler_condition
    finish-parts h = ground arith

    finish-Ended :
        finish at granted ctx p result job db ≡ ok (db', r)
        → find_job job.id db.jobs ≢ none
        → job.status ≡ outcome_of result
        → job.finished_at ≡ some at.finished_at
        → Ended job.id r db'
    unfolding new_attempt
    finish-Ended h stored status finished =
        let (same, jobs, _, attempts) = finish-parts h in
        record {
          row = job;
          found = cc (jobs, find-save_self job db.jobs stored);
          status = cc;
          finished = finished;
          earlier = db.attempts;
          attempt =
              new_attempt at.finished_at job granted (attempt_detail job ctx) db.next_attempt_id;
          appended = attempts;
          job = refl;
          outcome = cc;
          number = refl;
          leases = refl;
        }

  pub fail-Ended :
      (ctx : JobContext) (phase : Phase) (reason text message : String) (job : Job) (r : JobResult)
      (db db' : Db C)
      → fail at granted ctx phase reason text message job db ≡ ok (db', r)
      → find_job job.id db.jobs ≢ none
      → Ended job.id r db'
  unfolding fail
  fail-Ended ctx phase reason text message job r db db' h stored =
      finish-Ended ctx (failing phase reason message) (failure message) r
        (failed_row at.finished_at text job) db db' h stored refl refl

  -- A failure writes one row and one attempt, and leaves the catalog alone.
  record WrittenOff (text : String) (job : Job) (db : Db C) (r : JobResult) (db' : Db C)
      : Type 0 where
    pub failed : r.succeeds ≡ false
    pub catalog : db'.catalog ≡ db.catalog
    pub jobs : db'.jobs ≡ save_job (failed_row at.finished_at text job) db.jobs
    pub attempt : JobAttempt
    pub attempts : db'.attempts ≡ db.attempts ++ attempt ∷ []
    pub error : attempt.error ≡ some text
    pub outcome : attempt.outcome ≡ JobStatus.failed
    pub of_job : attempt.job_id ≡ job.id

  fail-WrittenOff :
      (ctx : JobContext) (phase : Phase) (reason text message : String) (job : Job) (r : JobResult)
      (db db' : Db C)
      → fail at granted ctx phase reason text message job db ≡ ok (db', r)
      → WrittenOff text job db r db'
  unfolding fail new_attempt
  fail-WrittenOff ctx phase reason text message job r db db' h =
      let (same, jobs, catalog, attempts) =
        finish-parts ctx (failing phase reason message) (failure message) r
          (failed_row at.finished_at text job) db db' h in
      record {
        failed = cc;
        catalog = catalog;
        jobs = jobs;
        attempt =
            new_attempt at.finished_at (failed_row at.finished_at text job) granted
              (attempt_detail (failed_row at.finished_at text job) ctx) db.next_attempt_id;
        attempts = attempts;
        error = refl;
        outcome = refl;
        of_job = refl;
      }

  restore-id : (run : HandlerRun C) (job : Job) → (restore_batches run job).id ≡ job.id
  restore-id run job = ground arith

  -- What a failed handler leaves, column by column: the database at the savepoint with the row of the
  -- job failed, the batches that the handler recorded in it, and one attempt more.
  pub record RolledBack (text : String) (run : HandlerRun C) (job : Job) (db : Db C) (r : JobResult)
      (db' : Db C) : Type 0 where
    pub unsuccessful : r.succeeds ≡ false
    pub catalog : db'.catalog ≡ db.catalog
    pub row : Job
    pub jobs : db'.jobs ≡ save_job row db.jobs
    pub id : row.id ≡ job.id
    pub status : row.status ≡ failed
    pub last_error : row.last_error ≡ some text
    pub finished : row.finished_at ≡ some at.finished_at
    pub number : row.attempts ≡ job.attempts
    pub batches :
        row.step_state.checkpoint_batches
        ≡ (if run.batch_state_touched then run.batches else job.step_state.checkpoint_batches)
    pub handler_keys : row.step_state.handler_keys ≡ job.step_state.handler_keys
    pub observations : row.step_state.engine_observations ≡ job.step_state.engine_observations
    pub attempt : JobAttempt
    pub attempts : db'.attempts ≡ db.attempts ++ attempt ∷ []
    pub attempt_job : attempt.job_id ≡ job.id
    pub attempt_outcome : attempt.outcome ≡ failed
    pub attempt_error : attempt.error ≡ some text

  restored-RolledBack :
      (text : String) (run : HandlerRun C) (job : Job) (db : Db C) (r : JobResult) (db' : Db C)
      → WrittenOff text (restore_batches run job) db r db'
      → RolledBack text run job db r db'
  restored-RolledBack text run job db r db' w = record {
    unsuccessful = w.failed;
    catalog = w.catalog;
    row = failed_row at.finished_at text (restore_batches run job);
    jobs = w.jobs;
    id = restore-id run job;
    status = refl;
    last_error = refl;
    finished = refl;
    number = ground arith;
    batches = ground arith;
    handler_keys = ground arith;
    observations = ground arith;
    attempt = w.attempt;
    attempts = w.attempts;
    attempt_job = w.of_job ∙ restore-id run job;
    attempt_outcome = w.outcome;
    attempt_error = w.error;
  }

  module _ (committed db db' : Db C) (job : Job) (r : JobResult) (run : HandlerRun C) where
    -- When a handler raises, the session survives and the run returns, the catalog, the jobs and
    -- the attempts are those at the savepoint, but for the row of the job and for one attempt,
    -- which is appended: the row is failed with the text of the error, has the batches that the
    -- handler recorded, where it recorded any, and otherwise its own, and keeps its other state
    -- and its attempt count, and the attempt has the job, the failure and the text.
    pub conclude-RolledBack :
        (text message : String)
        → (run.exit ≡ not_implemented text message) ⊎ (run.exit ≡ raised text message true)
        → conclude at committed granted job db run ≡ ok (db', r)
        → RolledBack text run job db r db'
    unfolding conclude
    conclude-RolledBack text message (inl e) h = restored-RolledBack text run job db r db' (
        fail-WrittenOff run.ctx Phase.blocked "not-implemented" text message
          (restore_batches run job) r db db' (rw e at h))
    conclude-RolledBack text message (inr e) h = restored-RolledBack text run job db r db' (
        fail-WrittenOff run.ctx Phase.backoff "handler-exception" text message
          (restore_batches run job) r db db' (rw e at h))

    refreshed-id : (refreshed run.db job).id ≡ job.id
    refreshed-id = elim (Option-cases (find_job job.id run.db.jobs)) [
      | inl gone ↦ ground arith
      | inr (j, there) ↦ ground (arith, id_of_find job.id j run.db.jobs there)
    ]

    -- Whatever way a handler ends, a run that returns has ended the job.
    pub conclude-Ended :
        find_job job.id db.jobs ≢ none
        → find_job job.id run.db.jobs ≢ none
        → conclude at committed granted job db run ≡ ok (db', r)
        → Ended job.id r db'
    unfolding conclude
    conclude-Ended stored kept h = go run.exit refl
      where
        result_stored :
            (x : JobResult)
            → find_job (result_row at.finished_at x (refreshed run.db job)).id run.db.jobs ≢ none
        result_stored x e = kept (cc (e, refreshed-id))

        restore_stored : find_job (restore_batches run job).id db.jobs ≢ none
        restore_stored e = stored (cc (e, restore-id run job))

        go : (x : HandlerExit) → run.exit ≡ x → Ended job.id r db'
        go (returned x) e =
            subst (λ i. Ended i r db') refreshed-id
              (finish-Ended run.ctx (result_projection x) x r
                (result_row at.finished_at x (refreshed run.db job)) run.db db' (rw e at h)
                (result_stored x) refl refl)
        go (not_implemented text message) e =
            subst (λ i. Ended i r db') (restore-id run job)
              (fail-Ended run.ctx Phase.blocked "not-implemented" text message
                (restore_batches run job) r db db' (rw e at h) restore_stored)
        go locked e = absurd (ground arith)
        go (raised text message true) e =
            subst (λ i. Ended i r db') (restore-id run job)
              (fail-Ended run.ctx Phase.backoff "handler-exception" text message
                (restore_batches run job) r db db' (rw e at h) restore_stored)
        go (raised text message false) e = elim (Option-cases (find_job job.id committed.jobs)) [
          | inl gone ↦ absurd (ground arith)
          | inr (j, there) ↦
              let same = id_of_find job.id j committed.jobs there in
              subst (λ i. Ended i r db') same
                (fail-Ended run.ctx Phase.backoff "handler-exception" text message j r committed db'
                  (ground arith) (λ e'. cc (same, there, e')))
        ]
