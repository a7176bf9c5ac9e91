-- ===== src/Jobs/Store.antt =====
-- The database as one session sees it: the tables of src/sutradhara/jobs/models.py and, as one value
-- of a type `C`, the catalog tables that the handlers own. A raise gives no database, since the
-- session of the caller rolls back.
pub mod Rows
use sutradhara.Prelude.{
  ℕ, ◌+◌, String, Bool, Option, none, some, List, [], ◌∷◌, ◌++◌, if◌then◌else◌, ◌==◌, nat_eq,
}
use sutradhara.Jobs.Leases.{Resources}
use sutradhara.Jobs.Model.{Job, JobAttempt, AttemptDetail}
use sutradhara.Jobs.Conditions.{Conditions}

pub record Db (C : Type 0) : Type 0 where
  pub jobs : List Job
  pub next_job_id : ℕ
  pub attempts : List JobAttempt
  pub next_attempt_id : ℕ
  pub conditions : Conditions
  pub catalog : C

-- `session.get(Job, id)`
unfoldable pub find_job : ℕ → List Job → Option Job
find_job id [] = none
find_job id (j ∷ jobs) = let rest = find_job id jobs in if j.id == id then some j else rest

-- the flush of a changed row
unfoldable pub save_job : Job → List Job → List Job
save_job job [] = []
save_job job (j ∷ jobs) = (if j.id == job.id then job else j) ∷ save_job job jobs

abbrev pub or_time : Option ℕ → ℕ → ℕ
or_time none t = t
or_time (some s) t = s

-- `record_attempt` (src/sutradhara/jobs/attempts.py), without the names of the worker and the code
-- version. `now` is the time of its fallback for a job that has not finished.
unfoldable pub new_attempt : ℕ → Job → Resources → AttemptDetail → ℕ → JobAttempt
new_attempt now job granted detail id =
    let finished = or_time job.finished_at now in
    record {
      id = id;
      job_id = job.id;
      job_kind = job.kind;
      attempt_number = job.attempts;
      outcome = job.status;
      error = job.last_error;
      started_at = or_time job.started_at finished;
      finished_at = finished;
      granted_leases = granted;
      detail = detail;
    }

module _ {C : Type 0} where
  unfoldable pub record_attempt : ℕ → Job → Resources → AttemptDetail → Db C → Db C × JobAttempt
  unfolding new_attempt
  record_attempt now job granted detail db =
      let attempt = new_attempt now job granted detail db.next_attempt_id in
      (
        record db {
          attempts = db.attempts ++ attempt ∷ [];
          next_attempt_id = db.next_attempt_id + 1;
        },
        attempt,
      )

  abbrev pub put_job : Job → Db C → Db C
  put_job job db = record db { jobs = save_job job db.jobs }
