-- ===== src/Jobs/Worker/Tallying.antt =====
-- The tally through the loops of `_claim_available_bounded` and the releases of an aborted transaction
-- (src/sutradhara/jobs/worker.py).
use sutradhara.Prelude.{
  ℕ, zero, suc, ◌+◌, ◌≤◌, ◌≡◌, refl, ap, sym, ◌∙◌, String, Option, none, some, List, [], ◌∷◌, ◌++◌,
  All, length, arith, string_eq, ok, err,
}
use mathlib.Core.List.{append-nil, append_assoc}
use sutradhara.Prelude.Dict.{NodupKeys}
use sutradhara.Jobs.Leases.{Resources, LeaseManager, get_or_zero, release, subtract_all}
use sutradhara.Jobs.Leases.Tally.{subtract_all-exact}
use sutradhara.Jobs.Model.{Job}
use sutradhara.Jobs.Engine.{Engine, pending_candidates}
use sutradhara.Jobs.Worker.{
  Scan, Surroundings, Visit, next, stop, claimed, failed_with, visit, scan, claim_rounds,
  cons_claim, release_each,
}
use sutradhara.Jobs.Worker.Claiming.{Holds, Keeps, total, taken_by, visit-Keeps}

-- What the result of a scan, and of a claiming loop, takes.
abbrev taken_in : Engine (Option (ℕ × Resources)) → List Resources
taken_in (ok (some (id, granted))) = granted ∷ []
taken_in _ = []

abbrev pub grants_of : List (ℕ × Resources) → List Resources
grants_of [] = []
grants_of ((id, granted) ∷ claims) = granted ∷ grants_of claims

-- A loop that raises may have reserved anything; one that returns has reserved what it returns.
abbrev Listed : ℕ → List Resources → List Resources → Engine (List (ℕ × Resources)) → Type 0
Listed n before after (err e) = Unit
Listed n before after (ok claims) = (after ≡ before ++ grants_of claims) × (length claims ≤ n)

pub record Reserved {C : Type 0} (base : LeaseManager) (n : ℕ) (before : List Resources)
    (p : Scan C × Engine (List (ℕ × Resources))) : Type 0 where
  pub holds : Holds base p.0.reserved p.0.leases
  pub listed : Listed n before p.0.reserved p.1

Listed-cons :
    (n : ℕ) (first middle after : List Resources) (id : ℕ) (granted : Resources)
    (rest : Engine (List (ℕ × Resources)))
    → middle ≡ first ++ granted ∷ []
    → Listed n middle after rest
    → Listed (suc n) first after (cons_claim (id, granted) rest)
Listed-cons n first middle after id granted (err e) m l = tt
Listed-cons n first middle after id granted (ok claims) m (l, le) = (
  l ∙ ap (λ r. r ++ grants_of claims) m ∙ append_assoc first (granted ∷ []) (grants_of claims),
  omega (arith, le),
)

module _ {C : Type 0} (env : Surroundings C) (base : LeaseManager) where
  abbrev Scanned : Scan C → Scan C × Engine (Option (ℕ × Resources)) → Type 0
  Scanned s p = Keeps base s p.0 (taken_in p.1)

  then-Keeps :
      (s s' s'' : Scan C) (taken : List Resources)
      → Keeps base s s' []
      → Keeps base s' s'' taken
      → Keeps base s s'' taken
  then-Keeps s s' s'' taken k l = record {
    reserved = l.reserved ∙ ap (λ r. r ++ taken) (k.reserved ∙ append-nil s.reserved);
    holds = l.holds;
  }

  scan-Keeps :
      (jobs : List Job) (s : Scan C) → Holds base s.reserved s.leases → Scanned s (scan env jobs s)
  unfolding scan
  scan-Keeps [] s h = record { reserved = sym (append-nil s.reserved); holds = h }
  scan-Keeps (job ∷ jobs) s h =
      let k = visit-Keeps env base s h job in
      go (visit env job s) k (λ holds. scan-Keeps jobs (visit env job s).0 holds)
    where
      go :
          (p : Scan C × Visit)
          → Keeps base s p.0 (taken_by p.1)
          → (Holds base p.0.reserved p.0.leases → Scanned p.0 (scan env jobs p.0))
          → Scanned s (elim p.1 [
            | next ↦ scan env jobs p.0
            | stop ↦ (p.0, ok none)
            | claimed id granted ↦ (p.0, ok (some (id, granted)))
            | failed_with e ↦ (p.0, err e)
          ])
      go (s', next) k onward = then-Keeps s s' (scan env jobs s').0 _ k (onward k.holds)
      go (s', stop) k onward = k
      go (s', claimed id granted) k onward = k
      go (s', failed_with e) k onward = k

  abbrev round : ℕ → Scan C → Scan C × Engine (Option (ℕ × Resources))
  round n s = scan env (pending_candidates env.gates (env.now n) s.db) s

  pub claim_rounds-Reserved :
      (n : ℕ) (s : Scan C)
      → Holds base s.reserved s.leases
      → Reserved base n s.reserved (claim_rounds env n s)
  unfolding claim_rounds
  claim_rounds-Reserved zero s h = record {
    holds = h;
    listed = (sym (append-nil s.reserved), omega arith);
  }
  claim_rounds-Reserved (suc n) s h =
      let k = scan-Keeps (pending_candidates env.gates (env.now n) s.db) s h in
      go (round n s) k (claim_rounds-Reserved n (round n s).0 k.holds)
    where
      go :
          (p : Scan C × Engine (Option (ℕ × Resources)))
          → Scanned s p
          → Reserved base n p.0.reserved (claim_rounds env n p.0)
          → Reserved {C = C} base (suc n) s.reserved (elim p.1 [
            | err e ↦ (p.0, err e)
            | ok none ↦ (p.0, ok [])
            | ok (some c) ↦ ((claim_rounds env n p.0).0, cons_claim c (claim_rounds env n p.0).1)
          ])
      go (s', err e) k rest = record { holds = k.holds; listed = tt }
      go (s', ok none) k rest = record { holds = k.holds; listed = (k.reserved, omega arith) }
      go (s', ok (some (id, granted))) k rest = record {
        holds = rest.holds;
        listed =
            Listed-cons n s.reserved s'.reserved (claim_rounds env n s').0.reserved id granted
              (claim_rounds env n s').1 k.reserved rest.listed;
      }

-- The release of one grant of a tally, wherever it stands among the grants.
pub release-Holds :
    (base : LeaseManager) (grants rest : List Resources) (granted : Resources) (m : LeaseManager)
    → ((j : String) → total j grants ≡ get_or_zero j granted + total j rest)
    → NodupKeys granted
    → All NodupKeys rest
    → Holds base grants m
    → ((release granted m).1 ≡ ok tt) × Holds base rest (release granted m).0
unfolding release
release-Holds base grants rest granted m split nodup all h = (
  (exact "").0,
  record {
    leased = λ j. omega (arith, (exact j).1, h.leased j, split j);
    capacities = h.capacities;
    within = record { at_pool = λ j. omega (arith, (exact j).1, h.within.at_pool j) };
    nodup = all;
  },
)
  where
    exact :
        (j : String)
        → ((subtract_all granted m.leased).1 ≡ ok tt)
          × (get_or_zero j (subtract_all granted m.leased).0 + get_or_zero j granted
              ≡ get_or_zero j m.leased)
    exact j = subtract_all-exact j granted m.leased nodup (λ i. omega (arith, h.leased i, split i))

pub release_each-Holds :
    (base : LeaseManager) (grants : List Resources) (m : LeaseManager)
    → Holds base grants m
    → Holds base [] (release_each grants m)
unfolding release_each
release_each-Holds base [] m h = h
release_each-Holds base (granted ∷ rest) m h =
    release_each-Holds base rest (release granted m).0
      (release-Holds base (granted ∷ rest) rest granted m (λ j. unfold total in refl) h.nodup.0
        h.nodup.1 h).1
