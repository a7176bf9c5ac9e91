-- ===== src/Jobs/Examples/Working.antt =====
-- Polls and executions of the worker (src/sutradhara/jobs/worker.py) on a concrete queue.
use sutradhara.Prelude.{
  true, some, Bool, ◌==◌, ℕ, ◌≡◌, refl, ◌≢◌, false, none, List, [], ◌∷◌, arith, ok, err, string_eq,
  nat_eq,
}
use sutradhara.Prelude.Int.{pos}
use sutradhara.Prelude.Dict.{lookup}
use sutradhara.Jobs.Json.{int, str}
use sutradhara.Jobs.Leases.{
  Resources, object, LeaseManager, normalize_required_resources, can_ever_fit, fits, reserve,
}
use sutradhara.Jobs.Leases.Tally.{IsWithin}
use sutradhara.Jobs.Model.{Job, pending}
use sutradhara.Jobs.Store.{Db, find_job, save_job, record_attempt}
use sutradhara.Jobs.Engine.{
  Engine, claim_job_by_id, claimed_row, pending_candidates, order_jobs, insert_ordered,
  prerequisites_succeeded, dispatch_gate_allows,
}
use sutradhara.Jobs.Run.{
  run_one, claim_and_execute, execute, conclude, finish, record_reconciler_condition,
  apply_retry_policy,
}
use sutradhara.Jobs.Worker.{Surroundings, Scan, visit_requiring, claim_available}
use sutradhara.Jobs.Worker.Accounting.{Accounted, claim_available-Accounted}
use sutradhara.Jobs.Worker.Execution.{Executor, WorkerJobOutcome, execute_job}
use sutradhara.Jobs.Worker.Recorded.{Settled, others, execute_job-Settled}
use sutradhara.Jobs.Run.{failure}
use sutradhara.Jobs.Worker.{Statement, persist}
use sutradhara.Jobs.Worker.Execution.{persist_lock_failure}
use sutradhara.Jobs.Worker.Heading.{Head, drain_head}
use sutradhara.Jobs.Worker.Awaiting.{drain_head-Awaiting}
use sutradhara.Prelude.Dict.{NodupKeys}
use sutradhara.Jobs.Worker.Draining.{Draining, Step, Steps, polled, starting}
use sutradhara.Jobs.Worker.Balance.{Balanced, drain-Balanced}
use sutradhara.Jobs.Examples.{three_jobs, job_with, config}
use sutradhara.Jobs.Examples.Running.{
  clock, success, counts, only, str_int, counts-KeepsRow, message,
}

abbrev pub surroundings : Surroundings ℕ
surroundings = record {
  hostname = "host";
  str_int = str_int;
  describe = λ required capacities. "too much";
  gates = λ kind. none;
  contended = λ s. false;
  at = clock;
  now = λ n. 10;
  aging_threshold_scans = pos 3;
}

abbrev executor : Executor ℕ
executor = record {
  handlers = only counts;
  unregistered = message;
  config = config;
  retried_at = 30;
  lock_text = "database is locked";
  meanwhile = λ n db. db;
}

abbrev four : LeaseManager
four = record { capacities = ("io", 4) ∷ []; leased = ("io", 0) ∷ [] }

four-IsWithin : IsWithin four
unfolding lookup
four-IsWithin = record { at_pool = λ j. ground arith }

-- One pending job that asks for three of the four.
abbrev asking : Job
asking = record (job_with 1 pending none) {
  required_resources = object (("pool", str "io") ∷ ("count", int (pos 3)) ∷ []) ∷ [];
}

abbrev one_job : Db ℕ
one_job = record three_jobs { jobs = asking ∷ [] }

abbrev grant : Resources
grant = ("io", 3) ∷ []

polled_once : Scan ℕ × Engine (List (ℕ × Resources))
polled_once = claim_available surroundings 2 four [] one_job

poll_returns :
    claim_available surroundings 2 four [] one_job ≡ (polled_once.0, ok ((1, grant) ∷ []))
unfolding polled_once claim_available pending_candidates order_jobs insert_ordered
    prerequisites_succeeded dispatch_gate_allows normalize_required_resources visit_requiring
    can_ever_fit fits claim_job_by_id find_job reserve save_job claimed_row
poll_returns = refl

claim_available-Accounted_example :
    Accounted 2 four one_job
      (claim_available surroundings 2 four [] one_job).0
      (claim_available surroundings 2 four [] one_job).1
claim_available-Accounted_example =
    claim_available-Accounted surroundings 2 four one_job [] four-IsWithin

abbrev exhausted : ℕ → WorkerJobOutcome
exhausted id = record {
  job_id = id;
  result = failure "database is locked";
  granted_leases = [];
  failure_record_pending = true;
}

abbrev executed_db : Db ℕ
executed_db = elim (execute_job surroundings executor 1 grant one_job) [
  | ok (db, o) ↦ db
  | err e ↦ one_job
]

abbrev succeeded : WorkerJobOutcome
succeeded = record {
  job_id = 1;
  result = success;
  granted_leases = grant;
  failure_record_pending = false;
}

execution_returns : execute_job surroundings executor 1 grant one_job ≡ ok (executed_db, succeeded)
unfolding execute_job run_one find_job claim_and_execute claim_job_by_id execute conclude finish
    record_reconciler_condition save_job claimed_row record_attempt apply_retry_policy
execution_returns = refl

one_stored : find_job 1 one_job.jobs ≢ none
unfolding find_job
one_stored e = ground arith

execute_job-Settled_example : Settled 1 grant (others executor 5 one_job) executed_db succeeded
execute_job-Settled_example =
    execute_job-Settled surroundings executor 1 grant counts-KeepsRow (λ n db stored. stored)
      one_job executed_db succeeded one_stored execution_returns

-- The drain that polls once, and in which the job then ends.
abbrev begun : Draining ℕ
begun = starting four [] [] one_job

abbrev busy : Draining ℕ
busy = polled begun polled_once.0 ((1, grant) ∷ [])

one_poll : Steps surroundings executor 2 begun busy
one_poll =
    Steps.step (Step.poll begun polled_once.0 ((1, grant) ∷ []) poll_returns) (Steps.done busy)

drain-Balanced_example : Balanced four 2 busy
drain-Balanced_example =
    drain-Balanced surroundings executor 2 four [] [] one_job busy four-IsWithin one_poll

-- Of two failures, the record of the second finds the database locked again.
abbrev second_only : Statement → Bool
second_only (persist n) = n == 2
second_only _ = false

abbrev locked_out : Surroundings ℕ
locked_out = record surroundings { contended = second_only }

abbrev waiting : Head ℕ
waiting = record {
  pending_failures = (3, exhausted 3) ∷ (2, exhausted 2) ∷ [];
  recovery_pending = false;
  db = three_jobs;
}

waiting-NodupKeys : NodupKeys waiting.pending_failures
unfolding lookup
waiting-NodupKeys = (refl, (refl, tt))

abbrev headed : Head ℕ
headed = elim (drain_head locked_out executor true 40 "recovered" waiting) [
  | ok h ↦ h
  | err e ↦ waiting
]

head_returns : drain_head locked_out executor true 40 "recovered" waiting ≡ ok headed
unfolding drain_head persist_lock_failure find_job record_reconciler_condition record_attempt
head_returns = refl

still_pending : lookup 2 headed.pending_failures ≡ some (exhausted 2)
unfolding lookup drain_head persist_lock_failure find_job record_reconciler_condition record_attempt
still_pending = refl

drain_head-Awaiting_example : find_job 2 headed.db.jobs ≡ find_job 2 three_jobs.jobs
drain_head-Awaiting_example =
    drain_head-Awaiting locked_out executor true 40 "recovered" waiting headed 2 (exhausted 2)
      waiting-NodupKeys head_returns still_pending
