-- ===== src/Jobs/Worker.antt =====
-- The claims of the job worker (`JobWorker._claim_available`, `_mark_never_fits` of
-- src/sutradhara/jobs/worker.py). Any statement may find the database locked; what a transaction wrote is
-- then gone, but not what it did to the tally and to the scan counts, which stand in memory.
pub mod Claiming
pub mod Tallying
pub mod Accounting
pub mod Execution
pub mod Recorded
pub mod Heading
pub mod Awaiting
pub mod Draining
pub mod Balance
pub mod Standing
pub mod Lifetime
use sutradhara.Prelude.{
  ℕ, zero, suc, ◌+◌, String, Bool, true, false, not, Option, none, some, List, [], ◌∷◌, ◌++◌,
  if◌then◌else◌, nat_eq, string_eq, Result, ok, err,
}
use sutradhara.Prelude.Int.{ℤ, pos, leb_ℤ}
use sutradhara.Prelude.Dict.{Dict, lookup, insert, erase}
use sutradhara.Jobs.Leases.{
  Resources, LeaseManager, LeaseError, normalize_required_resources, can_ever_fit, fits, reserve,
  release,
}
use sutradhara.Jobs.Model.{Job, JobAttempt, failed, backoff}
use sutradhara.Jobs.Context.{JobContext, job_context, attempt_detail}
use sutradhara.Jobs.Store.{Db, put_job, record_attempt}
use sutradhara.Jobs.Engine.{
  Engine, EngineError, lease_error, sqlite_locked, Gates, pending_candidates, claim_job_by_id,
}
use sutradhara.Jobs.Run.{Instants, failing, record_reconciler_condition}

-- What the claiming loop keeps: the worker's memory, its own list of reservations, and its session.
pub record Scan (C : Type 0) : Type 0 where
  pub leases : LeaseManager
  pub blocked_scans : Dict ℕ ℕ
  pub reserved : List Resources
  pub db : Db C

-- The statements that may find the database locked.
pub data Statement : Type 0 where
  mark claim persist : ℕ → Statement
  execution : ℕ → ℕ → Statement
  commit recover : Statement

-- How the look at one candidate ends.
pub data Visit : Type 0 where
  next stop : Visit
  claimed : ℕ → Resources → Visit
  failed_with : EngineError → Visit

-- The settings of the worker and of its surroundings; `describe` words the error of a job that
-- never fits, and `now` is the clock at each round.
pub record Surroundings (C : Type 0) : Type 0 where
  pub hostname : String
  pub str_int : ℤ → String
  pub describe : Resources → Resources → String
  pub gates : Gates C
  pub contended : Statement → Bool
  pub at : Instants
  pub now : ℕ → ℕ
  pub aging_threshold_scans : ℤ

unfoldable pub never_fitting_row : ℕ → String → Job → Job
never_fitting_row now text job = record job {
  attempts = job.attempts + 1;
  started_at = some now;
  status = failed;
  finished_at = some now;
  last_error = some text;
}

abbrev pub cons_claim :
    ℕ × Resources → Engine (List (ℕ × Resources)) → Engine (List (ℕ × Resources))
cons_claim c (err e) = err e
cons_claim c (ok cs) = ok (c ∷ cs)

-- the loop that gives back what an aborted transaction reserved
unfoldable pub release_each : List Resources → LeaseManager → LeaseManager
release_each [] m = m
release_each (granted ∷ rest) m = release_each rest (release granted m).0

module _ {C : Type 0} (env : Surroundings C) where
  unfoldable pub mark_never_fits : String → Job → Db C → Engine (Db C)
  mark_never_fits text job db =
      let row = never_fitting_row env.at.finished_at text job in
      let ctx = job_context env.hostname env.str_int [] row in
      let (recorded, attempt) =
        record_attempt env.at.finished_at row [] (attempt_detail row ctx) (put_job row db) in
      if env.contended (mark job.id)
      then err sqlite_locked
      else record_reconciler_condition env.at (failing backoff "never-fit" text) row attempt
          recorded

  abbrev pub scan_count : ℕ → Dict ℕ ℕ → ℕ
  scan_count id scans = elim (lookup id scans) [ none ↦ 0 | some n ↦ n ]

  abbrev pub marked : ℕ → Scan C → Engine (Db C) → Scan C × Visit
  marked id s (err e) = (s, failed_with e)
  marked id s (ok db) = (record s { db = db; blocked_scans = erase id s.blocked_scans }, next)

  -- A blocked candidate that has waited for enough scans ends the scan: nothing overtakes it.
  abbrev pub passed_over : ℕ → Scan C → Scan C × Visit
  passed_over id s =
      let count = scan_count id s.blocked_scans + 1 in
      (
        record s { blocked_scans = insert id count s.blocked_scans },
        if leb_ℤ env.aging_threshold_scans (pos count) then stop else next,
      )

  abbrev pub reserved_for :
      ℕ → Db C → Scan C → LeaseManager × Result LeaseError Resources → Scan C × Visit
  reserved_for id db s (leases, err e) = (s, failed_with (lease_error e))
  reserved_for id db s (leases, ok granted) = (
    record s {
      leases = leases;
      blocked_scans = erase id s.blocked_scans;
      reserved = s.reserved ++ granted ∷ [];
      db = db;
    },
    claimed id granted,
  )

  abbrev pub claim_for : ℕ → Resources → Scan C → Option (Db C × Job) → Scan C × Visit
  claim_for id required s none = (s, next)
  claim_for id required s (some (db, row)) = reserved_for row.id db s (reserve required s.leases)

  unfoldable pub visit_requiring : Job → Resources → Scan C → Scan C × Visit
  visit_requiring job required s =
      if not (can_ever_fit s.leases required)
      then marked job.id s (mark_never_fits (env.describe required s.leases.capacities) job s.db)
      else if not (fits s.leases required)
      then passed_over job.id s
      else if env.contended (claim job.id)
      then (s, failed_with sqlite_locked)
      else claim_for job.id required s (claim_job_by_id job.id env.at.claimed_at s.db)

  unfoldable pub visit : Job → Scan C → Scan C × Visit
  visit job s = elim (normalize_required_resources job.required_resources) [
    | err e ↦ (s, failed_with (lease_error e))
    | ok required ↦ visit_requiring job required s
  ]

  -- The loop over the candidates of one round.
  unfoldable pub scan : List Job → Scan C → Scan C × Engine (Option (ℕ × Resources))
  unfolding visit
  scan [] s = (s, ok none)
  scan (job ∷ jobs) s =
      let (s', v) = visit job s in
      let onward = scan jobs s' in
      elim v [
        | next ↦ onward
        | stop ↦ (s', ok none)
        | claimed id granted ↦ (s', ok (some (id, granted)))
        | failed_with e ↦ (s', err e)
      ]

  -- `_claim_available_bounded`: rounds until `max_new` claims are made or a round makes none.
  unfoldable pub claim_rounds : ℕ → Scan C → Scan C × Engine (List (ℕ × Resources))
  unfolding scan
  claim_rounds zero s = (s, ok [])
  claim_rounds (suc n) s =
      let (s', r) = scan (pending_candidates env.gates (env.now n) s.db) s in
      let (s'', rest) = claim_rounds n s' in
      elim r [
        | err e ↦ (s', err e)
        | ok none ↦ (s', ok [])
        | ok (some c) ↦ (s'', cons_claim c rest)
      ]

  abbrev pub aborted : Db C → Scan C → EngineError → Scan C × Engine (List (ℕ × Resources))
  aborted db s e = (
    record s { leases = release_each s.reserved s.leases; db = db },
    elim e [ sqlite_locked ↦ ok [] | other ↦ err other ],
  )

  -- The end of the transaction: a raise, a commit that finds the database locked, or a commit.
  abbrev pub settled :
      Db C → Scan C × Engine (List (ℕ × Resources)) → Scan C × Engine (List (ℕ × Resources))
  settled db (s, err e) = aborted db s e
  settled db (s, ok claims) =
      if env.contended commit then aborted db s sqlite_locked else (s, ok claims)

  -- `_claim_available`
  unfoldable pub claim_available :
      ℕ → LeaseManager → Dict ℕ ℕ → Db C → Scan C × Engine (List (ℕ × Resources))
  unfolding claim_rounds release_each
  claim_available max_new leases scans db = settled db (
      claim_rounds max_new
        (record { leases = leases; blocked_scans = scans; reserved = []; db = db }))
