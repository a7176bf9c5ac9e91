-- ===== src/Jobs/Engine.antt =====
-- Submission, claim and execution of jobs (src/sutradhara/jobs/engine.py).
-- Each call of the clock in an operation is a field of `Instants`; handlers and dispatch gates are
-- parameters, which may do anything to the database that they are handed.
pub mod LiveKeys
pub mod Submission
pub mod Order
pub mod Candidates
pub mod Claims
use sutradhara.Prelude.{
  ℕ, zero, suc, ◌+◌, String, Bool, true, false, not, ◌&&◌, ◌||◌, Option, none, some, List, [], ◌∷◌,
  ◌++◌, map, filter, all, leb, ltb, if◌then◌else◌, ◌==◌, nat_eq, string_eq, Result, ok, err, ◌>>=◌,
  length,
}
use sutradhara.Prelude.Int.{ℤ, pos, leb_ℤ, ltb_ℤ}
use sutradhara.Prelude.Dict.{Dict, insert}
use sutradhara.Jobs.Json.{Json}
use sutradhara.Jobs.Leases.{
  Entry, Resources, LeaseManager, LeaseError, fits, normalize_required_resources,
}
use sutradhara.Jobs.Config.{WorkerConfig, RetryPolicy, retry_for_kind, delay_seconds, Overflow}
use sutradhara.Jobs.Model.{
  Job, JobStatus, JobAttempt, StepState, Batches, pending, running, succeeded, failed, backoff,
  blocked, is_terminal, is_live, is_pending, is_running, is_succeeded, is_failed,
}
use sutradhara.Jobs.Conditions.{Projection, ConditionError, record_condition}
use sutradhara.Jobs.Context.{JobContext, job_context, attempt_detail}
use sutradhara.Jobs.Store.{Db, find_job, save_job, put_job, record_attempt}

-- What a call of the engine may raise.
pub data EngineError : Type 0 where
  integrity no_job terminal not_claimed not_runnable no_target_key sqlite_locked : EngineError
  condition_error : ConditionError → EngineError
  lease_error : LeaseError → EngineError
  delay_overflow : EngineError
  handler_error : EngineError

abbrev pub Engine {ℓ} : Type ℓ → Type ℓ
Engine A = Result EngineError A

-- The arguments of `submit` behind the kind.
pub record Request : Type 0 where
  pub kind : String
  pub params : Dict String Json
  pub required_resources : List Entry
  pub prerequisites : List ℕ
  pub not_before : Option ℕ
  pub priority : ℤ
  pub dedupe_key : Option String
  pub recon_domain : Option String
  pub recon_target_key : Option String

abbrev pub or_at : Option ℕ → ℕ → ℕ
or_at none now = now
or_at (some t) now = t

unfoldable pub new_job : ℕ → ℕ → Request → Job
new_job id now r = record {
  id = id;
  kind = r.kind;
  params = r.params;
  required_resources = r.required_resources;
  prerequisites = r.prerequisites;
  status = pending;
  step_state = record { checkpoint_batches = []; engine_observations = []; handler_keys = [] };
  attempts = 0;
  not_before = or_at r.not_before now;
  priority = r.priority;
  dedupe_key = r.dedupe_key;
  recon_domain = r.recon_domain;
  recon_target_key = r.recon_target_key;
  last_error = none;
  created_at = now;
  started_at = none;
  finished_at = none;
}

abbrev pub same_key : String → Option String → Bool
same_key key none = false
same_key key (some k) = k == key

unfoldable pub holds_key : String → Job → Bool
holds_key key j = same_key key j.dedupe_key && is_live j.status

-- `_live_job_for_dedupe`: the table is kept in order of ids
unfoldable pub live_job_for_dedupe : String → List Job → Option Job
live_job_for_dedupe key [] = none
live_job_for_dedupe key (j ∷ jobs) =
    let rest = live_job_for_dedupe key jobs in if holds_key key j then some j else rest

module _ {C : Type 0} where
  unfoldable pub add_job : ℕ → Request → Db C → Db C × Job
  unfolding new_job
  add_job now r db =
      let job = new_job db.next_job_id now r in
      (record db { jobs = db.jobs ++ job ∷ []; next_job_id = db.next_job_id + 1 }, job)

  abbrev existing_or_raise : Db C → Option Job → Engine (Db C × Job)
  existing_or_raise db none = err integrity
  existing_or_raise db (some j) = ok (db, j)

  -- The flush under the unique index on live keys; `late` is what other sessions commit before the
  -- second lookup.
  unfoldable pub insert_unique : (Db C → Db C) → ℕ → String → Request → Db C → Engine (Db C × Job)
  insert_unique late now key r db = elim (live_job_for_dedupe key db.jobs) [
    | none ↦ ok (add_job now r db)
    | some _ ↦ existing_or_raise (late db) (live_job_for_dedupe key (late db).jobs)
  ]

  -- `between` is what other sessions commit after the first lookup.
  submit_keyed : (Db C → Db C) → (Db C → Db C) → ℕ → String → Request → Db C → Engine (Db C × Job)
  unfolding insert_unique
  submit_keyed between late now key r db = elim (live_job_for_dedupe key db.jobs) [
    | some j ↦ ok (db, j)
    | none ↦ insert_unique late now key r (between db)
  ]

  unfoldable pub submit : (Db C → Db C) → (Db C → Db C) → ℕ → Request → Db C → Engine (Db C × Job)
  unfolding submit_keyed
  submit between late now r db = elim r.dedupe_key [
    | none ↦ ok (add_job now r db)
    | some key ↦ submit_keyed between late now key r db
  ]

-- `UPDATE job SET ... WHERE id = :id AND status = 'pending'`
unfoldable pub claimed_row : ℕ → Job → Job
claimed_row now j = record j {
  status = running;
  started_at = some now;
  finished_at = none;
  attempts = j.attempts + 1;
}

module _ {C : Type 0} where
  claim_found : ℕ → Db C → Option Job → Option (Db C × Job)
  claim_found now db none = none
  claim_found now db (some j) =
      if is_pending j.status then some (put_job (claimed_row now j) db, claimed_row now j) else none

  unfoldable pub claim_job_by_id : ℕ → ℕ → Db C → Option (Db C × Job)
  unfolding claim_found
  claim_job_by_id id now db = claim_found now db (find_job id db.jobs)

-- `order_by(Job.priority, Job.created_at, Job.id)`
abbrev pub before : Job → Job → Bool
before a b =
    ltb_ℤ a.priority b.priority
    || (leb_ℤ a.priority b.priority
        && (ltb a.created_at b.created_at || (leb a.created_at b.created_at && ltb a.id b.id)))

unfoldable pub insert_ordered : Job → List Job → List Job
insert_ordered j [] = j ∷ []
insert_ordered j (x ∷ xs) =
    let rest = insert_ordered j xs in if before x j then x ∷ rest else j ∷ x ∷ xs

unfoldable pub order_jobs : List Job → List Job
order_jobs [] = []
order_jobs (j ∷ jobs) = insert_ordered j (order_jobs jobs)

abbrev pub is_due : ℕ → Job → Bool
is_due now j = is_pending j.status && leb j.not_before now

abbrev pub has_succeeded : Option Job → Bool
has_succeeded none = false
has_succeeded (some j) = is_succeeded j.status

unfoldable pub prerequisites_succeeded : List Job → Job → Bool
prerequisites_succeeded jobs job = all (λ id. has_succeeded (find_job id jobs)) job.prerequisites

-- A dispatch gate answers, or raises (`none`).
abbrev pub Gates : Type 0 → Type 0
Gates C = String → Option (Db C → Job → Option Bool)

abbrev gate_answer : Option Bool → Bool
gate_answer none = true
gate_answer (some b) = b

module _ {C : Type 0} (gates : Gates C) where
  unfoldable pub dispatch_gate_allows : Db C → Job → Bool
  dispatch_gate_allows db job = elim (gates job.kind) [
    | none ↦ true
    | some gate ↦ gate_answer (gate db job)
  ]

  abbrev pub may_dispatch : Db C → Job → Bool
  may_dispatch db job = prerequisites_succeeded db.jobs job && dispatch_gate_allows db job

  unfoldable pub pending_candidates : ℕ → Db C → List Job
  pending_candidates now db = filter (may_dispatch db) (order_jobs (filter (is_due now) db.jobs))

  -- The loop of `claim_pending`, over the candidates that were read.
  claim_first : LeaseManager → ℕ → Db C → List Job → Engine (Option (Db C × Job))
  claim_first manager now db [] = ok none
  claim_first manager now db (j ∷ jobs) =
      let onward = claim_first manager now db jobs in
      elim (normalize_required_resources j.required_resources) [
        | err e ↦ err (lease_error e)
        | ok required ↦
            if not (fits manager required) then onward else elim (claim_job_by_id j.id now db) [
              | none ↦ onward
              | some claimed ↦ ok (some claimed)
            ]
      ]

  unfoldable pub claim_pending : LeaseManager → ℕ → Db C → Engine (Option (Db C × Job))
  unfolding claim_first
  claim_pending manager now db = claim_first manager now db (pending_candidates now db)
