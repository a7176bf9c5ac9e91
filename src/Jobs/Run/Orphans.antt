-- ===== src/Jobs/Run/Orphans.antt =====
-- The recovery of orphaned jobs at startup (`reset_orphaned_running_jobs` of
-- src/sutradhara/jobs/engine.py).
use sutradhara.Prelude.{
  ℕ, ◌≡◌, refl, String, Bool, none, some, List, [], ◌∷◌, map, filter, length, arith, if◌then◌else◌,
}
use sutradhara.Jobs.Model.{Job, is_running}
use sutradhara.Jobs.Store.{Db, find_job}
use sutradhara.Jobs.Store.Rows.{find-map}
use sutradhara.Jobs.Run.{reset_row, reset_if_running, reset_orphaned_running_jobs}

abbrev pub runs : Job → Bool
runs j = is_running j.status

module _ (now : ℕ) (marker : String) where
  none_running :
      (jobs : List Job) → length (filter runs (map (reset_if_running now marker) jobs)) ≡ 0
  none_running [] = refl
  none_running (j ∷ jobs) = ground (arith, none_running jobs)

  map-reset_idle :
      (jobs : List Job)
      → length (filter runs jobs) ≡ 0
      → map (reset_if_running now marker) jobs ≡ jobs
  map-reset_idle [] h = refl
  map-reset_idle (j ∷ jobs) h = ground (arith, map-reset_idle jobs)

module _ {C : Type 0} (now : ℕ) (marker : String) (db : Db C) where
  -- After the recovery no job is running, each row is found by its id as before, with a running one
  -- put back into the queue and any other unchanged, and a second recovery finds nothing to do.
  pub reset_orphaned-reads :
      let (after, recovered) = reset_orphaned_running_jobs now marker db in
      (length (filter runs after.jobs) ≡ 0)
      × (recovered ≡ length (filter runs db.jobs))
      × ((id : ℕ)
          → find_job id after.jobs ≡ elim (find_job id db.jobs) [
            | none ↦ none
            | some j ↦ some (if runs j then reset_row now marker j else j)
          ])
      × ((later : ℕ) (marker' : String)
          → reset_orphaned_running_jobs later marker' after ≡ (after, 0))
  unfolding reset_orphaned_running_jobs
  reset_orphaned-reads = (
    none_running now marker db.jobs,
    refl,
    λ id. find-map (reset_if_running now marker) id db.jobs (λ j. ground arith),
    λ later marker'. again later marker',
  )
    where
      reset : List Job
      reset = map (reset_if_running now marker) db.jobs

      again :
          (later : ℕ) (marker' : String)
          → reset_orphaned_running_jobs later marker' (record db { jobs = reset })
            ≡ (record db { jobs = reset }, 0)
      again later marker' =
          let idle = none_running now marker db.jobs in
          rw (map-reset_idle later marker' (map (reset_if_running now marker) db.jobs) idle, idle)
