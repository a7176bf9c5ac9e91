-- ===== src/Jobs/Worker/Accounting.antt =====
-- The tally after `_claim_available` (src/sutradhara/jobs/worker.py): it counts the claims that are
-- returned, and nothing when the transaction is aborted.
use sutradhara.Prelude.{
  ℕ, ◌≤◌, ◌≡◌, refl, subst, ◌⊎◌, inl, inr, String, List, [], length, arith, string_eq, Bool-cases,
  ok, err,
}
use sutradhara.Prelude.Dict.{Dict}
use sutradhara.Jobs.Leases.{Resources, LeaseManager}
use sutradhara.Jobs.Leases.Tally.{IsWithin}
use sutradhara.Jobs.Store.{Db}
use sutradhara.Jobs.Engine.{Engine, EngineError, sqlite_locked}
use sutradhara.Jobs.Worker.{
  Scan, Surroundings, claim_rounds, commit, claim_available, aborted, settled,
}
use sutradhara.Jobs.Worker.Claiming.{Holds, total}
use sutradhara.Jobs.Worker.Tallying.{grants_of, Reserved, claim_rounds-Reserved, release_each-Holds}

-- How a call of `_claim_available` ends: its claims are leased, or the transaction and every
-- reservation of it are gone.
pub data Accounted {C : Type 0} (n : ℕ) (m : LeaseManager) (db : Db C) (s : Scan C)
    (r : Engine (List (ℕ × Resources))) : Type 0 where
  committed :
      (claims : List (ℕ × Resources))
      → r ≡ ok claims
      → length claims ≤ n
      → Holds m (grants_of claims) s.leases
      → Accounted n m db s r
  undone :
      (r ≡ ok []) ⊎ ((e : EngineError) × (r ≡ err e))
      → s.db ≡ db
      → Holds m [] s.leases
      → Accounted n m db s r

pub total-nil : (j : String) → total j [] ≡ 0
unfolding total
total-nil j = refl

module _ {C : Type 0} (env : Surroundings C) (n : ℕ) (m : LeaseManager) (db : Db C) where
  aborted-Accounted :
      (s : Scan C) (e : EngineError)
      → Holds m s.reserved s.leases
      → Accounted n m db (aborted env db s e).0 (aborted env db s e).1
  aborted-Accounted s e h = undone (no_claims e) refl (release_each-Holds m s.reserved s.leases h)
    where
      no_claims :
          (x : EngineError)
          → ((aborted env db s x).1 ≡ ok [])
            ⊎ ((y : EngineError) × ((aborted env db s x).1 ≡ err y))
      no_claims sqlite_locked = inl refl
      no_claims other = inr (other, refl)

  -- Where every pool is within its capacity, a call that commits returns at most as many claims as
  -- it was asked for, and the tally counts exactly their grants; one that is aborted leaves the
  -- database as it was and every pool with the leases that it had, whether it raises or, on
  -- contention, returns no claim. Every pool is within its capacity after it.
  pub claim_available-Accounted :
      (scans : Dict ℕ ℕ)
      → IsWithin m
      → let (s, r) = claim_available env n m scans db in Accounted n m db s r
  unfolding claim_available
  claim_available-Accounted scans w =
      go (claim_rounds env n start) (claim_rounds-Reserved env m n start begin)
    where
      start : Scan C
      start = record { leases = m; blocked_scans = scans; reserved = []; db = db }

      begin : Holds m [] m
      begin = record {
        leased = λ j. omega (arith, total-nil j);
        capacities = refl;
        within = w;
        nodup = tt;
      }

      go :
          (p : Scan C × Engine (List (ℕ × Resources)))
          → Reserved m n [] p
          → Accounted n m db (settled env db p).0 (settled env db p).1
      go (s, err e) k = aborted-Accounted s e k.holds
      go (s, ok claims) k = elim (Bool-cases (env.contended commit)) [
        | inl e ↦ rw e (aborted-Accounted s sqlite_locked k.holds)
        | inr e ↦
            rw e (
              committed claims refl k.listed.1 (subst (λ r. Holds m r s.leases) k.listed.0 k.holds))
      ]
