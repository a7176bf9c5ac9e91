-- ===== src/Jobs/Examples.antt =====
-- Concrete rows of the job engine (src/sutradhara/jobs), on which the theorems about it are run.
pub mod Running
pub mod Queueing
pub mod Observing
pub mod Leasing
pub mod Working
pub mod Lifetimes
pub mod Sequences
use sutradhara.Prelude.{ℕ, String, Option, none, some, List, [], ◌∷◌, ◌≡◌}
use sutradhara.Prelude.Int.{ℤ, pos, negsuc}
use sutradhara.Jobs.Config.{WorkerConfig, RetryPolicy}
use sutradhara.Jobs.Model.{
  Job, JobStatus, StepState, Phase, ReconciliationCondition, pending, running, failed, open',
}
use sutradhara.Jobs.Conditions.{Conditions}
use sutradhara.Jobs.Store.{Db}
use sutradhara.Jobs.Engine.{Request}

abbrev pub empty_state : StepState
empty_state = record { checkpoint_batches = []; engine_observations = []; handler_keys = [] }

abbrev pub job_with : ℕ → JobStatus → Option String → Job
job_with id status key = record {
  id = id;
  kind = "copy";
  params = [];
  required_resources = [];
  prerequisites = [];
  status = status;
  step_state = empty_state;
  attempts = 1;
  not_before = 0;
  priority = pos 0;
  dedupe_key = key;
  recon_domain = none;
  recon_target_key = none;
  last_error = none;
  created_at = id;
  started_at = none;
  finished_at = none;
}

abbrev pub no_conditions : Conditions
no_conditions = record { rows = []; components = []; next_id = 1 }

-- A pending job, a live job under a key, and a failed one.
abbrev pub three_jobs : Db ℕ
three_jobs = record {
  jobs = job_with 1 pending none ∷ job_with 2 running (some "asset") ∷ job_with 3 failed none ∷ [];
  next_job_id = 4;
  attempts = [];
  next_attempt_id = 1;
  conditions = no_conditions;
  catalog = 0;
}

abbrev pub twice : RetryPolicy
twice = record { max_attempts = pos 2; backoff_seconds = pos 60 }

abbrev pub config : WorkerConfig
config = record {
  capacities = ("io", pos 4) ∷ [];
  retry = twice;
  per_kind_retry = [];
  aging_threshold_scans = pos 3;
  executor_workers = some (pos 2);
  max_backoff_seconds = pos 3600;
}

abbrev pub request : Option String → Request
request key = record {
  kind = "copy";
  params = [];
  required_resources = [];
  prerequisites = [];
  not_before = none;
  priority = negsuc 0;
  dedupe_key = key;
  recon_domain = none;
  recon_target_key = none;
}

abbrev pub open_row : ReconciliationCondition
open_row = record {
  id = 1;
  domain = "media.copies";
  target_key = "asset";
  observed_state = "missing";
  condition = open';
  reason = none;
  message = none;
  attempt_count = 0;
  next_eligible_at = some 0;
  blocked_tool_name = none;
  blocked_tool_version = none;
  last_attempt_id = none;
  last_attempt_at = none;
  last_success_at = none;
  updated_at = 0;
}

abbrev pub one_condition : Conditions
one_condition = record { rows = open_row ∷ []; components = []; next_id = 2 }

-- `random.uniform` that draws the lower end.
abbrev pub draw_lower : ℕ → ℕ → ℕ
draw_lower lower upper = lower
