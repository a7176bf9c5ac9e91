-- ===== src/Jobs/Worker/Balance.antt =====
-- The balance of a drain (`JobWorker.drain` of src/sutradhara/jobs/worker.py): at every moment the
-- tally counts exactly the futures in flight.
use sutradhara.Prelude.{
  ℕ, suc, ◌+◌, ◌-◌, ◌≤◌, ◌≡◌, refl, ap, sym, subst, ◌∙◌, inl, inr, String, false, List, [], ◌∷◌,
  ◌++◌, All, length, length-append, arith, string_eq, nat_eq, ok, ok-injective,
}
use sutradhara.Prelude.Dict.{Dict, NodupKeys}
use sutradhara.Jobs.Leases.{Resources, LeaseManager, get_or_zero, release}
use sutradhara.Jobs.Leases.Tally.{IsWithin}
use sutradhara.Jobs.Store.{Db}
use sutradhara.Jobs.Engine.{Engine}
use sutradhara.Jobs.Run.{failure}
use sutradhara.Jobs.Worker.{Scan, Surroundings}
use sutradhara.Jobs.Worker.Execution.{Executor, WorkerJobOutcome}
use sutradhara.Jobs.Worker.Claiming.{Holds, total}
use sutradhara.Jobs.Worker.Tallying.{grants_of, release-Holds}
use sutradhara.Jobs.Worker.Accounting.{
  Accounted, committed, undone, total-nil, claim_available-Accounted,
}
use sutradhara.Jobs.Worker.Draining.{
  Draining, Step, Steps, poll, end, other_session, done, step, polled, ended, starting,
}

-- The tally counts exactly the futures in flight, and there are no more of them than slots.
pub record Balanced {C : Type 0} (base : LeaseManager) (max_workers : ℕ) (d : Draining C)
    : Type 0 where
  pub holds : Holds base (grants_of d.in_flight) d.leases
  pub slots : length d.in_flight ≤ max_workers

-- The grants of a list of claims, and of the list without one of them.
total-split :
    (j : String) (earlier later : List (ℕ × Resources)) (id : ℕ) (granted : Resources)
    → total j (grants_of (earlier ++ (id, granted) ∷ later))
      ≡ get_or_zero j granted + total j (grants_of (earlier ++ later))
unfolding total
total-split j [] later id granted = refl
total-split j ((i, g) ∷ earlier) later id granted =
    omega (arith, total-split j earlier later id granted)

total-join :
    (j : String) (earlier later : List (ℕ × Resources))
    → total j (grants_of (earlier ++ later))
      ≡ total j (grants_of earlier) + total j (grants_of later)
unfolding total
total-join j [] later = omega arith
total-join j ((i, g) ∷ earlier) later = omega (arith, total-join j earlier later)

All-join :
    (earlier later : List (ℕ × Resources))
    → All NodupKeys (grants_of earlier)
    → All NodupKeys (grants_of later)
    → All NodupKeys (grants_of (earlier ++ later))
All-join [] later all all' = all'
All-join ((i, g) ∷ earlier) later (p, all) all' = (p, All-join earlier later all all')

All-split :
    (earlier later : List (ℕ × Resources)) (id : ℕ) (granted : Resources)
    → All NodupKeys (grants_of (earlier ++ (id, granted) ∷ later))
    → NodupKeys granted × All NodupKeys (grants_of (earlier ++ later))
All-split [] later id granted all = all
All-split ((i, g) ∷ earlier) later id granted (p, all) =
    let (q, rest) = All-split earlier later id granted all in (q, (p, rest))

length-split :
    (earlier later : List (ℕ × Resources)) (c : ℕ × Resources)
    → length (earlier ++ c ∷ later) ≡ suc (length (earlier ++ later))
length-split [] later c = refl
length-split (b ∷ earlier) later c = ap suc (length-split earlier later c)

module _ {C : Type 0} (env : Surroundings C) (x : Executor C) (base : LeaseManager)
    (max_workers : ℕ) where
  -- The release at the end of a future cannot raise, and keeps the balance.
  end-Balanced :
      (d : Draining C) (earlier later : List (ℕ × Resources)) (id : ℕ) (granted : Resources)
      (db : Db C) (o : WorkerJobOutcome)
      → d.in_flight ≡ earlier ++ (id, granted) ∷ later
      → Balanced base max_workers d
      → ((release granted d.leases).1 ≡ ok tt)
        × Balanced base max_workers (ended d (earlier ++ later) granted db o)
  end-Balanced d earlier later id granted db o e b =
      let held = subst (λ f. Holds base (grants_of f) d.leases) e b.holds in
      let (nodup, rest) = All-split earlier later id granted held.nodup in
      let (returns, holds) =
        release-Holds base (grants_of (earlier ++ (id, granted) ∷ later))
          (grants_of (earlier ++ later)) granted d.leases
          (λ j. total-split j earlier later id granted) nodup rest held in
      (
        returns,
        record {
          holds = holds;
          slots = omega (arith, b.slots, ap length e, length-split earlier later (id, granted));
        },
      )

  claims-Balanced :
      (d : Draining C) (s : Scan C) (claims : List (ℕ × Resources))
      → Balanced base max_workers d
      → Holds d.leases (grants_of claims) s.leases
      → length claims ≤ max_workers - length d.in_flight
      → Balanced base max_workers (polled d s claims)
  claims-Balanced d s claims b h le = record {
    holds = record {
      leased = λ j. omega (arith, h.leased j, b.holds.leased j, total-join j d.in_flight claims);
      capacities = h.capacities ∙ b.holds.capacities;
      within = h.within;
      nodup = All-join d.in_flight claims b.holds.nodup h.nodup;
    };
    slots = omega (arith, le, b.slots, length-append d.in_flight claims);
  }

  claimed-Balanced :
      (d : Draining C) (s : Scan C) (claims : List (ℕ × Resources))
      (r : Engine (List (ℕ × Resources)))
      → Balanced base max_workers d
      → r ≡ ok claims
      → Accounted (max_workers - length d.in_flight) d.leases d.db s r
      → Balanced base max_workers (polled d s claims)
  claimed-Balanced d s claims r b e (committed cs f le h) =
      let same = ok-injective cs claims (sym f ∙ e) in
      claims-Balanced d s claims b (subst (λ c. Holds d.leases (grants_of c) s.leases) same h)
        (subst (λ c. length c ≤ max_workers - length d.in_flight) same le)
  claimed-Balanced d s claims r b e (undone (inl f) same h) =
      let none_left = ok-injective [] claims (sym f ∙ e) in
      claims-Balanced d s claims b (subst (λ c. Holds d.leases (grants_of c) s.leases) none_left h)
        (omega (arith, ap length none_left))
  claimed-Balanced d s claims r b e (undone (inr (x', f)) same h) = absurd (ground arith)

  advance-Balanced :
      (d d' : Draining C)
      → Step env x max_workers d d'
      → Balanced base max_workers d
      → Balanced base max_workers d'
  advance-Balanced _ _ (poll d s claims e) b =
      let n = max_workers - length d.in_flight in
      claimed-Balanced d s claims (ok claims) b refl (
        subst (λ p. Accounted n d.leases d.db p.0 p.1) e
          (claim_available-Accounted env n d.leases d.db d.blocked_scans b.holds.within))
  advance-Balanced _ _ (end d earlier later id granted db o e run) b =
      (end-Balanced d earlier later id granted db o e b).1
  advance-Balanced _ _ (other_session d db) b = record { holds = b.holds; slots = b.slots }

  onward-Balanced :
      {d d' : Draining C}
      → Steps env x max_workers d d'
      → Balanced base max_workers d
      → Balanced base max_workers d'
  onward-Balanced (done d) b = b
  onward-Balanced (step {d} {d'} s rest) b = onward-Balanced rest (advance-Balanced d d' s b)

abbrev no_outcome : ℕ → Resources → WorkerJobOutcome
no_outcome id granted = record {
  job_id = id;
  result = failure "";
  granted_leases = granted;
  failure_record_pending = false;
}

-- At every moment of a drain that starts with every pool within its capacity, whatever was
-- claimed, ended, locked or committed by others before, the futures in flight are no more than the
-- slots, the tally is the one at the start plus exactly their grants, and no pool has more leased
-- than its capacity.
pub drain-Balanced :
    {C : Type 0} (env : Surroundings C) (x : Executor C) (max_workers : ℕ) (m : LeaseManager)
    (scans : Dict ℕ ℕ) (failures : Dict ℕ WorkerJobOutcome) (db : Db C) (d : Draining C)
    → IsWithin m
    → Steps env x max_workers (starting m scans failures db) d
    → Balanced m max_workers d
drain-Balanced env x max_workers m scans failures db d w steps =
    onward-Balanced env x m max_workers steps (record {
      holds = record {
        leased = λ j. omega (arith, total-nil j);
        capacities = refl;
        within = w;
        nodup = tt;
      };
      slots = omega arith;
    })

-- In a drain that starts with every pool within its capacity, the release at the end of any future
-- succeeds.
drain_releases :
    {C : Type 0} (env : Surroundings C) (x : Executor C) (max_workers : ℕ) (m : LeaseManager)
    (scans : Dict ℕ ℕ) (failures : Dict ℕ WorkerJobOutcome) (db : Db C) (d : Draining C)
    (earlier later : List (ℕ × Resources)) (id : ℕ) (granted : Resources)
    → IsWithin m
    → Steps env x max_workers (starting m scans failures db) d
    → d.in_flight ≡ earlier ++ (id, granted) ∷ later
    → (release granted d.leases).1 ≡ ok tt
drain_releases env x max_workers m scans failures db d earlier later id granted w steps e =
    (end-Balanced env x m max_workers d earlier later id granted d.db (no_outcome id granted) e
      (drain-Balanced env x max_workers m scans failures db d w steps)).0
