-- ===== src/Jobs/Worker/Standing.antt =====
-- How often a job has been claimed, and how often it may be (`_claim_job_by_id`, `run_one`,
-- `apply_retry_policy`, `reset_orphaned_running_jobs` of src/sutradhara/jobs/engine.py,
-- `_mark_never_fits` and `_persist_lock_failure` of src/sutradhara/jobs/worker.py): what each step makes of the count.
use sutradhara.Prelude.{
  ℕ, suc, ◌+◌, ◌≤◌, ◌≡◌, sym, subst, ap, ◌∙◌, inl, inr, String, Bool, false, Option, none, some,
  max, arith, ok, Bool-cases, if◌then◌else◌,
}
use sutradhara.Prelude.Int.{ℤ, pos, pos_part, leb_ℤ}
use sutradhara.Jobs.Leases.{Resources}
use sutradhara.Jobs.Config.{WorkerConfig, IsUniform, retry_for_kind}
use sutradhara.Jobs.Model.{Job, JobStatus, pending, running}
use sutradhara.Jobs.Store.{Db, find_job, save_job, record_attempt}
use sutradhara.Jobs.Store.Rows.{find-save_self, id_of_find}
use sutradhara.Jobs.Engine.{claim_job_by_id}
use sutradhara.Jobs.Engine.Claims.{Claimed, claim_refused, claim-stored, claimed_row-Claimed}
use sutradhara.Jobs.Run.{
  failed_row, reset_row, apply_retry_policy, reset_orphaned_running_jobs,
  record_reconciler_condition,
}
use sutradhara.Jobs.Run.Counting.{EndedRow}
use sutradhara.Jobs.Run.Retry.{retry-Requeued}
use sutradhara.Jobs.Run.Orphans.{runs, reset_orphaned-reads}
use sutradhara.Jobs.Worker.{Surroundings, mark_never_fits, never_fitting_row, persist}
use sutradhara.Jobs.Worker.Execution.{Executor, record_exhausted, persist_lock_failure}

abbrev pub spent : JobStatus → ℕ → ℕ
spent pending claims = suc claims
spent _ claims = claims

-- A recovery counts where it finds the job running.
abbrev pub counted : Option Job → ℕ → ℕ
counted none m = m
counted (some j) m = if runs j then suc m else m

-- Where the job stands after some claims and recoveries.
pub record Standing {C : Type 0} (limit : ℤ) (kind : String) (id claims recoveries : ℕ) (db : Db C)
    : Type 0 where
  pub row : Job
  pub found : find_job id db.jobs ≡ some row
  pub attempts : row.attempts ≡ claims
  pub same_kind : row.kind ≡ kind
  pub within : spent row.status claims ≤ max 1 (pos_part limit) + recoveries

module _ {C : Type 0} (env : Surroundings C) (config : WorkerConfig) (id : ℕ) (kind : String) where
  abbrev pub limit : ℤ
  limit = (retry_for_kind config kind).max_attempts

  abbrev pub Stands : ℕ → ℕ → Db C → Type 0
  Stands n m db = Standing limit kind id n m db

  stored_row :
      (n m : ℕ) (db : Db C) (job : Job)
      → Stands n m db
      → find_job id db.jobs ≡ some job
      → (job.attempts ≡ n) × (job.kind ≡ kind) × (spent job.status n ≤ max 1 (pos_part limit) + m)
  stored_row n m db job s found =
      let same : s.row ≡ job = ground (arith, s.found) in
      subst
        (λ (j : Job).
          (j.attempts ≡ n) × (j.kind ≡ kind) × (spent j.status n ≤ max 1 (pos_part limit) + m))
        same (s.attempts, s.same_kind, s.within)

  pub claim-Standing :
      (n m now : ℕ) (db db' : Db C) (row : Job)
      → Stands n m db
      → claim_job_by_id id now db ≡ some (db', row)
      → Stands (suc n) m db'
  claim-Standing n m now db db' row s h =
      let (j, found, idle, same) = claim_refused id now db db' row h in
      let (attempts, kind', within) = stored_row n m db j s found in
      let c : Claimed now j row = subst (Claimed now j) (sym same) (claimed_row-Claimed now j) in
      let kind_kept : row.kind ≡ j.kind = ap (λ (j : Job). j.kind) c.others in
      record {
        row = row;
        found = (claim-stored id now db db' row h).0;
        attempts = cc (c.attempts, attempts);
        same_kind = kind_kept ∙ kind';
        within = ground (arith, within, idle, c.status);
      }

  marked_jobs :
      (text : String) (job : Job) (db db' : Db C)
      → mark_never_fits env text job db ≡ ok db'
      → db'.jobs ≡ save_job (never_fitting_row env.at.finished_at text job) db.jobs
  unfolding mark_never_fits record_attempt record_reconciler_condition
  marked_jobs text job db db' h = ground arith

  pub mark-Standing :
      (n m : ℕ) (text : String) (job : Job) (db db' : Db C)
      → Stands n m db
      → find_job id db.jobs ≡ some job
      → job.status ≡ pending
      → mark_never_fits env text job db ≡ ok db'
      → Stands (suc n) m db'
  unfolding never_fitting_row
  mark-Standing n m text job db db' s found idle h =
      let (attempts, kind', within) = stored_row n m db job s found in
      let row = never_fitting_row env.at.finished_at text job in
      let same = id_of_find id job db.jobs found in
      let self = find-save_self row db.jobs (λ e. absurd (cc (same, found, e))) in
      record {
        row = row;
        found = cc (same, marked_jobs text job db db' h, self);
        attempts = omega (arith, attempts);
        same_kind = kind';
        within = ground (arith, within, idle);
      }

  pub run-Standing :
      (n m : ℕ) (job : Job) (db db' : Db C)
      → Stands n m db
      → find_job id db.jobs ≡ some job
      → job.status ≡ running
      → EndedRow job db'
      → Stands n m db'
  run-Standing n m job db db' s found busy e =
      let (attempts, kind', within) = stored_row n m db job s found in
      record {
        row = e.row;
        found =
            subst (λ i. find_job i db'.jobs ≡ some e.row) (id_of_find id job db.jobs found) e.found;
        attempts = e.attempts ∙ attempts;
        same_kind = e.kind ∙ kind';
        within = elim e.ended [
          | inl done ↦ ground (arith, within, busy, done)
          | inr bad ↦ ground (arith, within, busy, bad)
        ];
      }

  pub retry-Standing :
      (n m now : ℕ) (draw : ℕ → ℕ → ℕ) (job : Job) (db db' : Db C)
      → Stands n m db
      → IsUniform draw
      → find_job id db.jobs ≡ some job
      → apply_retry_policy draw config now job db ≡ ok db'
      → Stands n m db'
  retry-Standing n m now draw job db db' s u found h =
      let (attempts, kind', within) = stored_row n m db job s found in
      let same = id_of_find id job db.jobs found in
      elim (retry-Requeued draw config now job db db' u (λ e. absurd (cc (same, found, e))) h) [
        | inl (unchanged, _) ↦ subst (λ (d : Db C). Stands n m d) (sym unchanged) s
        | inr q ↦
            let left : leb_ℤ limit (pos n) ≡ false =
              subst (λ k. leb_ℤ (retry_for_kind config k).max_attempts (pos n) ≡ false) kind'
                (subst (λ k. leb_ℤ (retry_for_kind config job.kind).max_attempts (pos k) ≡ false)
                  attempts q.attempts_left) in
            record {
              row = q.row;
              found = subst (λ i. find_job i db'.jobs ≡ some q.row) same q.stored;
              attempts = q.attempts ∙ attempts;
              same_kind = ap (λ (j : Job). j.kind) q.kept ∙ kind';
              within = ground (arith, q.waits, left);
            }
      ]

  pub recover-Standing :
      (n m now : ℕ) (marker : String) (db : Db C)
      → Stands n m db
      → Stands n (counted (find_job id db.jobs) m) (reset_orphaned_running_jobs now marker db).0
  recover-Standing n m now marker db s =
      let (_, _, reads, _) = reset_orphaned-reads now marker db in
      elim (Bool-cases (runs s.row)) [
        | inl busy ↦ record {
          row = reset_row now marker s.row;
          found = reads id ∙ rw (s.found, busy);
          attempts = s.attempts;
          same_kind = s.same_kind;
          within = ground (arith, s.within, s.found, busy);
        }
        | inr idle ↦ record {
          row = s.row;
          found = reads id ∙ rw (s.found, idle);
          attempts = s.attempts;
          same_kind = s.same_kind;
          within = ground (arith, s.within, s.found, idle);
        }
      ]

  module _ (x : Executor C) (granted : Resources) (detail : String) where
    exhausted_jobs :
        (job : Job) (db db' : Db C) (b : Bool)
        → record_exhausted env x granted detail job db ≡ ok (db', b)
        → db'.jobs ≡ save_job (failed_row env.at.finished_at detail job) db.jobs
    unfolding record_exhausted record_attempt record_reconciler_condition
    exhausted_jobs job db db' b h = ground arith

    pub persist-Standing :
        (n m : ℕ) (db db' : Db C) (b : Bool)
        → Stands n m db
        → persist_lock_failure env x id granted detail db ≡ ok (db', b)
        → Stands n m db'
    unfolding persist_lock_failure
    persist-Standing n m db db' b s h = elim (Bool-cases (env.contended (persist id))) [
      | inl locked ↦
          let unchanged : db' ≡ db = ground arith in
          subst (λ (d : Db C). Stands n m d) (sym unchanged) s
      | inr free ↦
          let row = failed_row env.at.finished_at detail s.row in
          let same = id_of_find id s.row db.jobs s.found in
          let self = find-save_self row db.jobs (λ e. absurd (cc (same, s.found, e))) in
          let jobs = exhausted_jobs s.row db db' b (rw (free, s.found) at h) in
          record {
            row = row;
            found = cc (same, jobs, self);
            attempts = s.attempts;
            same_kind = s.same_kind;
            within = failed_within s.row.status s.within;
          }
    ]
      where
        failed_within :
            (t : JobStatus)
            → spent t n ≤ max 1 (pos_part limit) + m
            → n ≤ max 1 (pos_part limit) + m
        failed_within t w = ground arith
