-- ===== src/Jobs/Model.antt =====
-- The rows of the job engine (src/sutradhara/jobs/models.py). Times are microseconds since the epoch.
use sutradhara.Prelude.{ℕ, String, Bool, true, false, Option, List}
use sutradhara.Prelude.Int.{ℤ}
use sutradhara.Prelude.Dict.{Dict}
use sutradhara.Jobs.Json.{Json}
use sutradhara.Jobs.Leases.{Entry, Resources}

pub data JobStatus : Type 0 where
  pending queued running succeeded failed cancelled : JobStatus

pub JobStatus-discrete : Discrete JobStatus
JobStatus-discrete = hlevel

-- `TERMINAL_STATUSES`
abbrev pub is_terminal : JobStatus → Bool
is_terminal succeeded = true
is_terminal failed = true
is_terminal cancelled = true
is_terminal _ = false

-- `LIVE_JOB_STATUSES`
abbrev pub is_live : JobStatus → Bool
is_live pending = true
is_live queued = true
is_live running = true
is_live _ = false

abbrev pub is_pending : JobStatus → Bool
is_pending pending = true
is_pending _ = false

abbrev pub is_running : JobStatus → Bool
is_running running = true
is_running _ = false

abbrev pub is_succeeded : JobStatus → Bool
is_succeeded succeeded = true
is_succeeded _ = false

abbrev pub is_failed : JobStatus → Bool
is_failed failed = true
is_failed _ = false

-- An object that a tape batch has written and not yet checkpointed.
pub record BatchObject : Type 0 where
  pub caller_object_id : String
  pub provisional_ordinal : ℕ
  pub source : String
  pub restart_offset : ℕ

-- `checkpoint_batches` of a job's `step_state`: the open objects of each batch.
abbrev pub Batches : Type 0
Batches = Dict String (List BatchObject)

-- `step_state`, with its two keys that the engine itself reads apart from the handlers' own keys.
pub record StepState : Type 0 where
  pub checkpoint_batches : Batches
  pub engine_observations : List String
  pub handler_keys : Dict String Json

pub record Job : Type 0 where
  pub id : ℕ
  pub kind : String
  pub params : Dict String Json
  pub required_resources : List Entry
  pub prerequisites : List ℕ
  pub status : JobStatus
  pub step_state : StepState
  pub attempts : ℕ
  pub not_before : ℕ
  pub priority : ℤ
  pub dedupe_key : Option String
  pub recon_domain : Option String
  pub recon_target_key : Option String
  pub last_error : Option String
  pub created_at : ℕ
  pub started_at : Option ℕ
  pub finished_at : Option ℕ

-- `detail` of an attempt, as `attempt_detail` builds it.
pub record AttemptDetail : Type 0 where
  pub step_state : StepState
  pub components : List String
  pub observations : List (Dict String Json)
  pub component_parents : List (String × String)

pub record JobAttempt : Type 0 where
  pub id : ℕ
  pub job_id : ℕ
  pub job_kind : String
  pub attempt_number : ℕ
  pub outcome : JobStatus
  pub error : Option String
  pub started_at : ℕ
  pub finished_at : ℕ
  pub granted_leases : Resources
  pub detail : AttemptDetail

-- The phases of a reconciliation condition (src/sutradhara/jobs/reconcilers/conditions.py).
pub data Phase : Type 0 where
  open' backoff blocked suppressed satisfied : Phase

pub record ReconciliationCondition : Type 0 where
  pub id : ℕ
  pub domain : String
  pub target_key : String
  pub observed_state : String
  pub condition : Phase
  pub reason : Option String
  pub message : Option String
  pub attempt_count : ℕ
  pub next_eligible_at : Option ℕ
  pub blocked_tool_name : Option String
  pub blocked_tool_version : Option String
  pub last_attempt_id : Option ℕ
  pub last_attempt_at : Option ℕ
  pub last_success_at : Option ℕ
  pub updated_at : ℕ

pub record ConditionComponent : Type 0 where
  pub condition_id : ℕ
  pub component : String
