-- ===== src/Jobs/Examples/Queueing.antt =====
-- Submission, claim and recovery (src/sutradhara/jobs/engine.py) on a concrete queue.
use sutradhara.Prelude.{
  ◌==◌, ℕ, ◌+◌, ◌≡◌, refl, ◌↔◌, String, Bool, true, Option, none, some, Memᴰ, arith, ok, length,
  filter, if◌then◌else◌, nat_eq, string_eq,
}
use sutradhara.Jobs.Model.{Job, pending}
use sutradhara.Jobs.Store.{Db, find_job}
use sutradhara.Jobs.Engine.{
  submit, insert_unique, add_job, live_job_for_dedupe, holds_key, claim_job_by_id,
  pending_candidates,
}
use sutradhara.Jobs.Engine.LiveKeys.{IsUnique}
use sutradhara.Jobs.Engine.Submission.{Submitted, KeepsUnique, submit-Submitted}
use sutradhara.Jobs.Engine.Claims.{Claimed, claim_once}
use sutradhara.Jobs.Engine.Candidates.{Dispatchable, InOrder, pending_candidates_exact}
use sutradhara.Jobs.Run.{reset_orphaned_running_jobs, reset_row}
use sutradhara.Jobs.Run.Orphans.{runs, reset_orphaned-reads}
use sutradhara.Jobs.Examples.{three_jobs, job_with, request}

three-IsUnique : IsUnique three_jobs.jobs
unfolding holds_key
three-IsUnique = record { at_key = λ key. ground arith }

-- Another session that changes nothing that the index reads.
abbrev bump : Db ℕ → Db ℕ
bump db = record db { catalog = db.catalog + 1 }

bump-KeepsUnique : KeepsUnique bump
bump-KeepsUnique = record { keeps = λ db u. u }

submitted : Db ℕ × Job
unfolding add_job
submitted = add_job 5 (request (some "other")) (bump three_jobs)

submit_returns : submit bump bump 5 (request (some "other")) three_jobs ≡ ok submitted
unfolding submit insert_unique live_job_for_dedupe holds_key submitted
submit_returns = refl

submit-Submitted_example : Submitted (request (some "other")) submitted.0 submitted.1
submit-Submitted_example =
    submit-Submitted bump bump 5 (request (some "other")) three_jobs submitted.0 submitted.1
      bump-KeepsUnique bump-KeepsUnique three-IsUnique submit_returns

first_found : find_job 1 three_jobs.jobs ≡ some (job_with 1 pending none)
unfolding find_job
first_found = refl

claim_once_example :
    (db' : Db ℕ) × (row : Job) × (claim_job_by_id 1 5 three_jobs ≡ some (db', row))
    × Claimed 5 (job_with 1 pending none) row
    × ((other : ℕ)
        → find_job other db'.jobs
          ≡ (if 1 == other then some row else find_job other three_jobs.jobs))
    × (record db' { jobs = three_jobs.jobs } ≡ three_jobs)
    × ((later : ℕ) → claim_job_by_id 1 later db' ≡ none)
claim_once_example = claim_once 5 three_jobs 1 (job_with 1 pending none) first_found refl

-- A gate that lets every job pass.
abbrev gates : String → Option (Db ℕ → Job → Option Bool)
gates kind = some (λ db job. some true)

pending_candidates_exact_example :
    ((j : Job) → Memᴰ j (pending_candidates gates 5 three_jobs) ↔ Dispatchable gates 5 three_jobs j)
    × InOrder (pending_candidates gates 5 three_jobs)
pending_candidates_exact_example = pending_candidates_exact gates 5 three_jobs

reset_orphaned-reads_example :
    let (after, recovered) = reset_orphaned_running_jobs 9 "lost" three_jobs in
    (length (filter runs after.jobs) ≡ 0)
    × (recovered ≡ length (filter runs three_jobs.jobs))
    × ((id : ℕ)
        → find_job id after.jobs ≡ elim (find_job id three_jobs.jobs) [
          | none ↦ none
          | some j ↦ some (if runs j then reset_row 9 "lost" j else j)
        ])
    × ((later : ℕ) (marker' : String)
        → reset_orphaned_running_jobs later marker' after ≡ (after, 0))
reset_orphaned-reads_example = reset_orphaned-reads 9 "lost" three_jobs
