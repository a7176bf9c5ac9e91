-- ===== src/Jobs/Examples/Lifetimes.antt =====
-- The life of one job under the worker on a concrete queue: claimed, lost with its worker, recovered,
-- claimed again and run.
use sutradhara.Prelude.{
  ℕ, ◌+◌, ◌≤◌, ◌≡◌, refl, subst, ap, max, String, none, some, [], ◌∷◌, ok, err,
}
use sutradhara.Prelude.Int.{pos_part}
use sutradhara.Jobs.Config.{retry_for_kind}
use sutradhara.Jobs.Model.{Job, running}
use sutradhara.Jobs.Store.{Db, find_job, save_job, record_attempt, new_attempt}
use sutradhara.Jobs.Engine.{new_job, claim_job_by_id, claimed_row}
use sutradhara.Jobs.Run.{
  Handler, run_one, conclude, dispatch, execute, finish, claim_and_execute,
  record_reconciler_condition, reset_orphaned_running_jobs, reset_row,
}
use sutradhara.Jobs.Run.Counting.{KeepsCount}
use sutradhara.Jobs.Worker.Lifetime.{Life, claims_bounded}
use sutradhara.Jobs.Examples.{three_jobs, config, request, draw_lower}
use sutradhara.Jobs.Examples.Running.{
  clock, success, counts, only, str_int, message, draw_lower-IsUniform,
}
use sutradhara.Jobs.Examples.Working.{surroundings}

counts-KeepsCount : (kind : String) (h : Handler ℕ) → only counts kind ≡ some h → KeepsCount h
counts-KeepsCount kind h e =
    subst KeepsCount (ap (λ o. elim o [ none ↦ counts | some x ↦ x ]) e)
      (record { kept = λ db job ctx found. (job, found, refl, refl) })

abbrev one_job : Db ℕ
one_job = record three_jobs { jobs = new_job 1 0 (request none) ∷ [] }

abbrev claimed_by : ℕ → Job → Job
claimed_by now j = record j {
  status = running;
  started_at = some now;
  finished_at = none;
  attempts = j.attempts + 1;
}

abbrev first_row : Job
first_row = new_job 1 0 (request none)

abbrev holding : Job → Db ℕ
holding row = record one_job { jobs = row ∷ [] }

abbrev first_claim : Job
first_claim = claimed_by 5 first_row

abbrev second_claim : Job
second_claim = claimed_by 9 (reset_row 7 "worker lost" first_claim)

abbrev after_run : Db ℕ
after_run =
    elim (run_one clock "host" str_int message (only counts) (holding second_claim) [] 1
      (holding second_claim)) [ ok (db, r) ↦ db | err e ↦ one_job ]

abbrev Lives : ℕ → ℕ → Db ℕ → Type 0
Lives = Life surroundings config draw_lower message (only counts) 1 "copy"

born : Lives 0 0 one_job
unfolding find_job new_job
born = Life.submitted 0 (request none) one_job refl refl

claimed_first : claim_job_by_id 1 5 one_job ≡ some (holding first_claim, first_claim)
unfolding claim_job_by_id claimed_row find_job save_job new_job
claimed_first = refl

recovered_once :
    (reset_orphaned_running_jobs 7 "worker lost" (holding first_claim)).0
    ≡ holding (reset_row 7 "worker lost" first_claim)
unfolding reset_orphaned_running_jobs new_job
recovered_once = refl

recovery : Lives 1 1 (holding (reset_row 7 "worker lost" first_claim))
unfolding reset_orphaned_running_jobs find_job new_job
recovery =
    Life.recovered 7 "worker lost"
      (Life.claimed 5 (holding first_claim) first_claim born claimed_first)

claimed_again :
    claim_job_by_id 1 9 (holding (reset_row 7 "worker lost" first_claim))
    ≡ some (holding second_claim, second_claim)
unfolding claim_job_by_id claimed_row find_job save_job new_job
claimed_again = refl

run_returns :
    run_one clock "host" str_int message
      (only counts)
      (holding second_claim)
      []
      1
      (holding second_claim)
    ≡ ok (after_run, success)
unfolding run_one dispatch claim_and_execute execute conclude finish record_reconciler_condition
    record_attempt new_attempt find_job save_job new_job
run_returns = refl

second_found : find_job 1 (holding second_claim).jobs ≡ some second_claim
unfolding find_job new_job
second_found = refl

life : Lives 2 1 after_run
life =
    Life.ran clock [] second_claim after_run success
      (Life.claimed 9 (holding second_claim) second_claim recovery claimed_again) second_found refl
      run_returns

claims_bounded_example : 2 ≤ max 1 (pos_part (retry_for_kind config "copy").max_attempts) + 1
claims_bounded_example =
    claims_bounded surroundings config draw_lower message (only counts) 1 "copy"
      draw_lower-IsUniform counts-KeepsCount 2 1 after_run life
