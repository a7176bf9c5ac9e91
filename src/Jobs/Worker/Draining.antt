-- ===== src/Jobs/Worker/Draining.antt =====
-- The scheduler of the worker (`JobWorker.drain` of src/sutradhara/jobs/worker.py) as a step relation:
-- a poll claims for the free slots, a future ends and its leases are released, and other sessions commit.
use sutradhara.Prelude.{
  ℕ, ◌-◌, ◌≡◌, List, [], ◌∷◌, ◌++◌, length, string_eq, nat_eq, ok, if◌then◌else◌,
}
use sutradhara.Prelude.Dict.{Dict, insert}
use sutradhara.Jobs.Leases.{Resources, LeaseManager, release}
use sutradhara.Jobs.Store.{Db}
use sutradhara.Jobs.Worker.{Scan, Surroundings, claim_available}
use sutradhara.Jobs.Worker.Execution.{Executor, WorkerJobOutcome, execute_job}

-- The worker between two polls; `in_flight` are the futures with their grants.
pub record Draining (C : Type 0) : Type 0 where
  pub leases : LeaseManager
  pub blocked_scans : Dict ℕ ℕ
  pub in_flight : List (ℕ × Resources)
  pub pending_failures : Dict ℕ WorkerJobOutcome
  pub outcomes : List WorkerJobOutcome
  pub db : Db C

abbrev pub polled : {C : Type 0} → Draining C → Scan C → List (ℕ × Resources) → Draining C
polled d s claims = record d {
  leases = s.leases;
  blocked_scans = s.blocked_scans;
  in_flight = d.in_flight ++ claims;
  db = s.db;
}

abbrev pending_after : {C : Type 0} → Draining C → WorkerJobOutcome → Dict ℕ WorkerJobOutcome
pending_after d o =
    if o.failure_record_pending then insert o.job_id o d.pending_failures else d.pending_failures

-- `future.result()`, then `self.leases.release(granted)`
abbrev pub ended :
    {C : Type 0}
    → Draining C
    → List (ℕ × Resources)
    → Resources
    → Db C
    → WorkerJobOutcome
    → Draining C
ended d rest granted db o = record d {
  leases = (release granted d.leases).0;
  in_flight = rest;
  pending_failures = pending_after d o;
  outcomes = d.outcomes ++ o ∷ [];
  db = db;
}

-- One step of a drain with `max_workers` slots.
pub data Step {C : Type 0} (env : Surroundings C) (x : Executor C) (max_workers : ℕ)
    : Draining C → Draining C → Type 0 where
  poll :
      (d : Draining C) (s : Scan C) (claims : List (ℕ × Resources))
      → claim_available env (max_workers - length d.in_flight) d.leases d.blocked_scans d.db
        ≡ (s, ok claims)
      → Step env x max_workers d (polled d s claims)
  end :
      (d : Draining C) (earlier later : List (ℕ × Resources)) (id : ℕ) (granted : Resources)
      (db : Db C) (o : WorkerJobOutcome)
      → d.in_flight ≡ earlier ++ (id, granted) ∷ later
      → execute_job env x id granted d.db ≡ ok (db, o)
      → Step env x max_workers d (ended d (earlier ++ later) granted db o)
  other_session : (d : Draining C) (db : Db C) → Step env x max_workers d (record d { db = db })

pub data Steps {C : Type 0} (env : Surroundings C) (x : Executor C) (max_workers : ℕ)
    : Draining C → Draining C → Type 0 where
  done : (d : Draining C) → Steps env x max_workers d d
  step :
      {d d' d'' : Draining C}
      → Step env x max_workers d d'
      → Steps env x max_workers d' d''
      → Steps env x max_workers d d''

-- The start of a drain.
abbrev pub starting :
    {C : Type 0} → LeaseManager → Dict ℕ ℕ → Dict ℕ WorkerJobOutcome → Db C → Draining C
starting m scans failures db = record {
  leases = m;
  blocked_scans = scans;
  in_flight = [];
  pending_failures = failures;
  outcomes = [];
  db = db;
}
