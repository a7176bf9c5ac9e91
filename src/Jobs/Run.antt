-- ===== src/Jobs/Run.antt =====
-- The run of one claimed job, its retry, and the recovery of orphans
-- (`run_one`, `apply_retry_policy`, `reset_orphaned_running_jobs` of src/sutradhara/jobs/engine.py).
-- A handler is a parameter: it returns the database with its writes, its context, and how it ended.
pub mod Outcome
pub mod Ended
pub mod Retry
pub mod Orphans
pub mod Counting
pub mod Sequence
use sutradhara.Prelude.{
  ℕ, ◌+◌, String, Bool, true, false, not, Option, none, some, List, [], ◌∷◌, ◌++◌, map, filter,
  length, if◌then◌else◌, nat_eq, string_eq, Result, ok, err, ◌>>=◌,
}
use sutradhara.Prelude.Int.{ℤ, pos, leb_ℤ}
use sutradhara.Prelude.Dict.{Dict, insert}
use sutradhara.Jobs.Json.{Json}
use sutradhara.Jobs.Leases.{Resources}
use sutradhara.Jobs.Config.{WorkerConfig, retry_for_kind, delay_seconds, Overflow}
use sutradhara.Jobs.Model.{
  Job, JobStatus, JobAttempt, StepState, Batches, Phase, pending, queued, running, succeeded,
  failed, cancelled, backoff, blocked, is_failed, is_running,
}
use sutradhara.Jobs.Conditions.{Conditions, Projection, ConditionError, record_condition}
use sutradhara.Jobs.Context.{JobContext, job_context, attempt_detail}
use sutradhara.Jobs.Store.{Db, find_job, put_job, record_attempt}
use sutradhara.Jobs.Engine.{
  Engine, EngineError, claim_job_by_id, no_job, terminal, not_claimed, not_runnable, no_target_key,
  sqlite_locked, condition_error, delay_overflow, handler_error,
}

-- `ConditionProjection`
pub record ConditionProjection : Type 0 where
  pub condition : Phase
  pub reason : Option String
  pub message : Option String
  pub next_eligible_at : Option ℕ
  pub blocked_tool : Option (String × String)
  pub auto_block : Bool

-- `JobResult`; no handler returns the two keys of `step_state` that the engine keeps itself.
pub record JobResult : Type 0 where
  pub succeeds : Bool
  pub detail : String
  pub step_state : Dict String Json
  pub condition : Option ConditionProjection

-- How a handler ends. An exception has its text with the traceback, and its message; `active` says
-- whether the session can still be used.
pub data HandlerExit : Type 0 where
  returned : JobResult → HandlerExit
  not_implemented : String → String → HandlerExit
  locked : HandlerExit
  raised : String → String → (active : Bool) → HandlerExit

pub record HandlerRun (C : Type 0) : Type 0 where
  pub db : Db C
  pub ctx : JobContext
  pub batches : Batches
  pub batch_state_touched : Bool
  pub exit : HandlerExit

abbrev pub Handler : Type 0 → Type 0
Handler C = Db C → Job → JobContext → HandlerRun C

-- The three readings of the clock, and the draw of a backoff.
pub record Instants : Type 0 where
  pub claimed_at : ℕ
  pub finished_at : ℕ
  pub recorded_at : ℕ
  pub draw : ℕ → ℕ → ℕ

abbrev pub failing : Phase → String → String → Projection
failing phase reason message = record {
  condition = some phase;
  reason = some reason;
  message = some message;
  next_eligible_at = none;
  blocked_tool = none;
  auto_block = true;
}

abbrev projected : ConditionProjection → Projection
projected c = record {
  condition = some c.condition;
  reason = c.reason;
  message = c.message;
  next_eligible_at = c.next_eligible_at;
  blocked_tool = c.blocked_tool;
  auto_block = c.auto_block;
}

abbrev cleared : Projection
cleared = record {
  condition = none;
  reason = none;
  message = none;
  next_eligible_at = none;
  blocked_tool = none;
  auto_block = true;
}

-- The projection of a result: its own, else none for a success and a back-off for a failure.
abbrev pub result_projection : JobResult → Projection
result_projection r = elim r.condition [
  | some c ↦ projected c
  | none ↦ if r.succeeds then cleared else failing backoff "unclassified" r.detail
]

abbrev with_conditions : {C : Type 0} → Db C → Result ConditionError Conditions → Engine (Db C)
with_conditions db (ok t) = ok (record db { conditions = t })
with_conditions db (err e) = err (condition_error e)

abbrev merge_keys : Dict String Json → Dict String Json → Dict String Json
merge_keys keys [] = keys
merge_keys keys ((k, v) ∷ rest) = merge_keys (insert k v keys) rest

abbrev pub merge_step_state : Dict String Json → StepState → StepState
merge_step_state keys state = record state { handler_keys = merge_keys state.handler_keys keys }

abbrev pub failed_row : ℕ → String → Job → Job
failed_row now text job = record job {
  status = failed;
  finished_at = some now;
  last_error = some text;
}

abbrev pub result_row : ℕ → JobResult → Job → Job
result_row now r job = record job {
  status = if r.succeeds then succeeded else failed;
  finished_at = some now;
  last_error = if r.succeeds then none else some r.detail;
  step_state = merge_step_state r.step_state job.step_state;
}

-- After a rollback the batches that the handler recorded are kept in the row.
abbrev pub restore_batches : {C : Type 0} → HandlerRun C → Job → Job
restore_batches r job =
    if r.batch_state_touched
    then record job { step_state = record job.step_state { checkpoint_batches = r.batches } }
    else job

abbrev pub refreshed : {C : Type 0} → Db C → Job → Job
refreshed db job = elim (find_job job.id db.jobs) [ none ↦ job | some j ↦ j ]

abbrev pub failure : String → JobResult
failure message = record { succeeds = false; detail = message; step_state = []; condition = none }

module _ {C : Type 0} (at : Instants) where
  unfoldable pub record_reconciler_condition : Projection → Job → JobAttempt → Db C → Engine (Db C)
  record_reconciler_condition p job attempt db = elim job.recon_domain [
    | none ↦ ok db
    | some domain ↦ elim job.recon_target_key [
      | none ↦ err no_target_key
      | some target_key ↦
          with_conditions db (
            record_condition at.draw at.recorded_at domain target_key p (some attempt)
              db.conditions)
    ]
  ]

  -- The end of every run: the row is written, the attempt appended, the condition projected.
  unfoldable pub finish :
      Resources → JobContext → Projection → JobResult → Job → Db C → Engine (Db C × JobResult)
  finish granted ctx p result job db =
      let (recorded, attempt) =
        record_attempt at.finished_at job granted (attempt_detail job ctx) (put_job job db) in
      do db' ← record_reconciler_condition p job attempt recorded; ok (db', result)

  unfoldable pub fail :
      Resources
      → JobContext
      → Phase
      → String
      → String
      → String
      → Job
      → Db C
      → Engine (Db C × JobResult)
  fail granted ctx phase reason text message job db =
      finish granted ctx (failing phase reason message) (failure message)
        (failed_row at.finished_at text job) db

  abbrev fail_rolled_back :
      Resources → JobContext → String → String → Option Job → Db C → Engine (Db C × JobResult)
  fail_rolled_back granted ctx text message none committed = err handler_error
  fail_rolled_back granted ctx text message (some job) committed =
      fail granted ctx backoff "handler-exception" text message job committed

  -- What `run_one` does with the end of a handler. `db` is the database at the savepoint, and
  -- `committed` what a rollback of the whole session goes back to.
  unfoldable pub conclude :
      (committed : Db C) → Resources → Job → Db C → HandlerRun C → Engine (Db C × JobResult)
  conclude committed granted job db run = elim run.exit [
    | returned r ↦
        finish granted run.ctx (result_projection r) r
          (result_row at.finished_at r (refreshed run.db job)) run.db
    | not_implemented text message ↦
        fail granted run.ctx blocked "not-implemented" text message (restore_batches run job) db
    | locked ↦ err sqlite_locked
    | raised text message active ↦
        if active
        then fail granted run.ctx backoff "handler-exception" text message (restore_batches run job)
            db
        else fail_rolled_back granted run.ctx text message (find_job job.id committed.jobs)
            committed
  ]

  module _ (hostname : String) (str_int : ℤ → String) (unregistered : String → String)
      (handlers : String → Option (Handler C)) (committed : Db C) (granted : Resources) where
    unfoldable pub execute : Job → Db C → Engine (Db C × JobResult)
    execute job db =
        let ctx = job_context hostname str_int granted job in
        elim (handlers job.kind) [
          | none ↦
              fail granted ctx backoff "handler-not-registered" (unregistered job.kind)
                (unregistered job.kind) job db
          | some handler ↦ conclude committed granted job db (handler db job ctx)
        ]

    unfoldable pub claim_and_execute : Option (Db C × Job) → Engine (Db C × JobResult)
    claim_and_execute none = err not_claimed
    claim_and_execute (some (db, job)) = execute job db

    unfoldable pub dispatch : ℕ → Db C → Option Job → Engine (Db C × JobResult)
    dispatch id db none = err no_job
    dispatch id db (some job) = elim job.status [
      | pending ↦ claim_and_execute (claim_job_by_id id at.claimed_at db)
      | running ↦ execute job db
      | queued ↦ err not_runnable
      | _ ↦ err terminal
    ]

    unfoldable pub run_one : ℕ → Db C → Engine (Db C × JobResult)
    unfolding dispatch
    run_one id db = dispatch id db (find_job id db.jobs)

-- The row that a retry puts back into the queue.
abbrev pub requeued : ℕ → Job → Job
requeued due job = record job {
  status = pending;
  not_before = due;
  started_at = none;
  finished_at = none;
}

abbrev requeue : {C : Type 0} → ℕ → Job → Db C → Result Overflow ℕ → Engine (Db C)
requeue now job db (err _) = err delay_overflow
requeue now job db (ok delay) = ok (put_job (requeued (now + delay) job) db)

unfoldable pub apply_retry_policy :
    {C : Type 0} → (ℕ → ℕ → ℕ) → WorkerConfig → ℕ → Job → Db C → Engine (Db C)
apply_retry_policy draw config now job db =
    if not (is_failed job.status)
    then ok db
    else let retry = retry_for_kind config job.kind in
      if leb_ℤ retry.max_attempts (pos job.attempts)
      then ok db
      else requeue now job db (delay_seconds draw retry job.attempts config.max_backoff_seconds)

-- `marker` is the text that names the time of the recovery.
abbrev pub reset_row : ℕ → String → Job → Job
reset_row now marker job = record job {
  step_state = record job.step_state {
    engine_observations = job.step_state.engine_observations ++ marker ∷ [];
  };
  last_error = some marker;
  status = pending;
  started_at = none;
  not_before = now;
}

abbrev reset_if_running : ℕ → String → Job → Job
reset_if_running now marker job = if is_running job.status then reset_row now marker job else job

unfoldable pub reset_orphaned_running_jobs : {C : Type 0} → ℕ → String → Db C → Db C × ℕ
reset_orphaned_running_jobs now marker db = (
  record db { jobs = map (reset_if_running now marker) db.jobs },
  length (filter (λ j. is_running j.status) db.jobs),
)
