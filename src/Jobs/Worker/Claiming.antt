-- ===== src/Jobs/Worker/Claiming.antt =====
-- What a scan of the worker does to the lease tally (`_claim_available_bounded` of
-- src/sutradhara/jobs/worker.py): it leases exactly what it lists as reserved.
use sutradhara.Prelude.{
  ℕ, ◌+◌, ◌≡◌, refl, ap, sym, subst, ◌∙◌, inl, inr, String, Bool, true, false, Option, none, some,
  List, [], ◌∷◌, ◌++◌, All, arith, string_eq, nat_eq, Bool-cases, Result-cases, Result, ok, err,
  if◌then◌else◌,
}
use sutradhara.Prelude.Int.{pos, leb_ℤ}
use mathlib.Core.List.{append-nil}
use sutradhara.Prelude.Dict.{NodupKeys}
use sutradhara.Jobs.Leases.{
  Resources, LeaseManager, LeaseError, get_or_zero, fits, can_ever_fit, reserve, Entry, add_all,
  normalize_required_resources,
}
use sutradhara.Jobs.Leases.Tally.{IsWithin, reserve-IsWithin, get_or_zero-add_all}
use sutradhara.Jobs.Leases.Requests.{normalize-Describes}
use sutradhara.Jobs.Model.{Job}
use sutradhara.Jobs.Store.{Db}
use sutradhara.Jobs.Engine.{Engine, lease_error, claim_job_by_id}
use sutradhara.Jobs.Worker.{
  Scan, Surroundings, Visit, next, stop, claimed, failed_with, claim, visit, visit_requiring,
  marked, claim_for, passed_over, scan_count,
}

-- What a list of grants takes of a pool.
unfoldable pub total : String → List Resources → ℕ
total j [] = 0
total j (granted ∷ rest) = get_or_zero j granted + total j rest

pub total-append :
    (j : String) (xs : List Resources) (granted : Resources)
    → total j (xs ++ granted ∷ []) ≡ total j xs + get_or_zero j granted
unfolding total
total-append j [] granted = omega arith
total-append j (x ∷ xs) granted = ground (arith, total-append j xs granted)

All-append :
    (xs : List Resources) (granted : Resources)
    → All NodupKeys xs
    → NodupKeys granted
    → All NodupKeys (xs ++ granted ∷ [])
All-append [] granted all nodup = (nodup, tt)
All-append (x ∷ xs) granted (p, all) nodup = (p, All-append xs granted all nodup)

-- The tally of `m` is that of `base` and the grants.
pub record Holds (base : LeaseManager) (grants : List Resources) (m : LeaseManager) : Type 0 where
  pub leased : (j : String) → get_or_zero j m.leased ≡ get_or_zero j base.leased + total j grants
  pub capacities : m.capacities ≡ base.capacities
  pub within : IsWithin m
  pub nodup : All NodupKeys grants

reserve-fits :
    (m : LeaseManager) (required : Resources)
    → fits m required ≡ true
    → reserve required m ≡ (record m { leased = add_all required m.leased }, ok required)
unfolding reserve
reserve-fits m required f = rw f refl

reserve-Holds :
    (base : LeaseManager) (grants : List Resources) (m : LeaseManager) (required : Resources)
    → NodupKeys required
    → Holds base grants m
    → fits m required ≡ true
    → Holds base (grants ++ required ∷ []) (record m { leased = add_all required m.leased })
reserve-Holds base grants m required nodup h f = record {
  leased = λ j. omega (
    arith,
    h.leased j,
    get_or_zero-add_all j required m.leased nodup,
    total-append j grants required,
  );
  capacities = h.capacities;
  within =
      subst (λ p. IsWithin p.0) (reserve-fits m required f)
        (reserve-IsWithin m required nodup h.within);
  nodup = All-append grants required h.nodup nodup;
}

abbrev or_nothing : Result LeaseError Resources → Resources
or_nothing (ok r) = r
or_nothing (err e) = []

normalize-NodupKeys :
    (raw : List Entry) (required : Resources)
    → normalize_required_resources raw ≡ ok required
    → NodupKeys required
normalize-NodupKeys raw required e = elim (normalize-Describes raw) [
  | inl (_, r, made, nodup, _) ↦ subst NodupKeys (ap or_nothing (sym made ∙ e)) nodup
  | inr (x, _, raised) ↦ absurd (ground arith)
]

-- What a visit takes: the grant of its claim.
abbrev pub taken_by : Visit → List Resources
taken_by (claimed id granted) = granted ∷ []
taken_by _ = []

-- From `s` on, the scan has reserved `taken`, and its tally counts that.
pub record Keeps {C : Type 0} (base : LeaseManager) (s s' : Scan C) (taken : List Resources)
    : Type 0 where
  pub reserved : s'.reserved ≡ s.reserved ++ taken
  pub holds : Holds base s'.reserved s'.leases

takes_nothing : (b : Bool) → taken_by (if b then stop else next) ≡ []
takes_nothing true = refl
takes_nothing false = refl

module _ {C : Type 0} (env : Surroundings C) (base : LeaseManager) (s : Scan C)
    (h : Holds base s.reserved s.leases) where
  same-Keeps : (s' : Scan C) → s'.reserved ≡ s.reserved → s'.leases ≡ s.leases → Keeps base s s' []
  same-Keeps s' e f = record {
    reserved = e ∙ sym (append-nil s.reserved);
    holds =
        subst (λ m. Holds base s'.reserved m) (sym f)
          (subst (λ r. Holds base r s.leases) (sym e) h);
  }

  marked-Keeps :
      (id : ℕ) (r : Engine (Db C))
      → Keeps base s (marked env id s r).0 (taken_by (marked env id s r).1)
  marked-Keeps id (err e) = same-Keeps s refl refl
  marked-Keeps id (ok db) = same-Keeps (marked env id s (ok db)).0 refl refl

  passed_over-Keeps :
      (id : ℕ) → Keeps base s (passed_over env id s).0 (taken_by (passed_over env id s).1)
  passed_over-Keeps id =
      subst (Keeps base s (passed_over env id s).0)
        (sym (
          takes_nothing
            (leb_ℤ env.aging_threshold_scans (pos (scan_count env id s.blocked_scans + 1)))))
        (same-Keeps (passed_over env id s).0 refl refl)

  claim_for-Keeps :
      (id : ℕ) (required : Resources) (c : Option (Db C × Job))
      → NodupKeys required
      → fits s.leases required ≡ true
      → Keeps base s (claim_for env id required s c).0 (taken_by (claim_for env id required s c).1)
  claim_for-Keeps id required none nodup f = same-Keeps s refl refl
  claim_for-Keeps id required (some (db, row)) nodup f =
      rw (reserve-fits s.leases required f) (record {
        reserved = refl;
        holds = reserve-Holds base s.reserved s.leases required nodup h f;
      })

  visit_requiring-Keeps :
      (job : Job) (required : Resources)
      → NodupKeys required
      → let (s', v) = visit_requiring env job required s in Keeps base s s' (taken_by v)
  unfolding visit_requiring
  visit_requiring-Keeps job required nodup = elim (Bool-cases (can_ever_fit s.leases required)) [
    | inr e ↦ rw e (marked-Keeps job.id _)
    | inl e ↦ elim (Bool-cases (fits s.leases required)) [
      | inr f ↦ rw (e, f) (passed_over-Keeps job.id)
      | inl f ↦ elim (Bool-cases (env.contended (claim job.id))) [
        | inl g ↦ rw (e, f, g) (same-Keeps s refl refl)
        | inr g ↦
            rw (e, f, g)
              (claim_for-Keeps job.id required (claim_job_by_id job.id env.at.claimed_at s.db) nodup
                f)
      ]
    ]
  ]

  visit-ok :
      (job : Job) (required : Resources)
      → normalize_required_resources job.required_resources ≡ ok required
      → visit env job s ≡ visit_requiring env job required s
  unfolding visit
  visit-ok job required e = rw (e, visit) refl

  visit-err :
      (job : Job) (x : LeaseError)
      → normalize_required_resources job.required_resources ≡ err x
      → visit env job s ≡ (s, failed_with (lease_error x))
  unfolding visit
  visit-err job x e = rw (e, visit) refl

  pub visit-Keeps : (job : Job) → Keeps base s (visit env job s).0 (taken_by (visit env job s).1)
  visit-Keeps job = elim (Result-cases (normalize_required_resources job.required_resources)) [
    | inr (x, e) ↦
        subst (λ p. Keeps base s p.0 (taken_by p.1)) (sym (visit-err job x e))
          (same-Keeps s refl refl)
    | inl (required, e) ↦
        subst (λ p. Keeps base s p.0 (taken_by p.1)) (sym (visit-ok job required e))
          (visit_requiring-Keeps job required
            (normalize-NodupKeys job.required_resources required e))
  ]
