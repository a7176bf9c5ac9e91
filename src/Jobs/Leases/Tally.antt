-- ===== src/Jobs/Leases/Tally.antt =====
-- The tally of `LeaseManager` (src/sutradhara/jobs/leases.py): what is leased never passes what a
-- pool has, and a reservation and its release cancel.
use sutradhara.Prelude.{
  ℕ, ◌+◌, ◌-◌, ◌≤◌, ◌≡◌, refl, String, true, none, [], ◌∷◌, arith, all, leb, if◌then◌else◌, ◌==◌,
  string_eq, ok,
}
use sutradhara.Prelude.Dict.{lookup, insert, NodupKeys, lookup-cons, lookup-insert}
use sutradhara.Jobs.Leases.{
  Resources, LeaseManager, get_or_zero, add_all, subtract_all, fits, fits_one, can_ever_fit,
  reserve, release,
}

pub get_or_zero-nil : (j : String) → get_or_zero j [] ≡ 0
unfolding lookup
get_or_zero-nil j = refl

pub get_or_zero-cons :
    (j p : String) (n : ℕ) (d : Resources)
    → get_or_zero j ((p, n) ∷ d) ≡ (if p == j then n else get_or_zero j d)
get_or_zero-cons j p n d = ground (arith, lookup-cons j p n d)

pub get_or_zero-insert :
    (j p : String) (n : ℕ) (d : Resources)
    → get_or_zero j (insert p n d) ≡ (if p == j then n else get_or_zero j d)
get_or_zero-insert j p n d = ground (arith, lookup-insert j p n d)

get_or_zero-fresh : (j : String) (d : Resources) → lookup j d ≡ none → get_or_zero j d ≡ 0
get_or_zero-fresh j d h = ground arith

-- The number of leases of a pool after the loop of `reserve`.
pub get_or_zero-add_all :
    (j : String) (required leased : Resources)
    → NodupKeys required
    → get_or_zero j (add_all required leased) ≡ get_or_zero j leased + get_or_zero j required
unfolding add_all
get_or_zero-add_all j [] leased h = omega (arith, get_or_zero-nil j)
get_or_zero-add_all j ((p, c) ∷ rest) leased h = ground (
  arith,
  string_eq.same_iff p j,
  get_or_zero-cons j p c rest,
  get_or_zero-insert j p (get_or_zero p leased + c) leased,
  get_or_zero-fresh p rest h.0,
  get_or_zero-add_all j rest (insert p (get_or_zero p leased + c) leased) h.1,
)

-- The loop of `release` never raises a count.
subtract_all-le :
    (j : String) (granted leased : Resources)
    → get_or_zero j (subtract_all granted leased).0 ≤ get_or_zero j leased
unfolding subtract_all
subtract_all-le j [] leased = omega arith
subtract_all-le j ((p, c) ∷ rest) leased = ground (
  arith,
  string_eq.same_iff p j,
  get_or_zero-insert j p (get_or_zero p leased - c) leased,
  subtract_all-le j rest (insert p (get_or_zero p leased - c) leased),
)

-- What is left to release is still there after one entry.
enough_left :
    (p : String) (c : ℕ) (rest leased : Resources)
    → lookup p rest ≡ none
    → ((j : String) → get_or_zero j ((p, c) ∷ rest) ≤ get_or_zero j leased)
    → (j : String) → get_or_zero j rest ≤ get_or_zero j (insert p (get_or_zero p leased - c) leased)
enough_left p c rest leased fresh enough j = ground (
  arith,
  string_eq.same_iff p j,
  get_or_zero-fresh p rest fresh,
  get_or_zero-cons j p c rest,
  get_or_zero-insert j p (get_or_zero p leased - c) leased,
  enough j,
)

head_fits :
    (p : String) (c : ℕ) (rest leased : Resources)
    → ((j : String) → get_or_zero j ((p, c) ∷ rest) ≤ get_or_zero j leased)
    → c ≤ get_or_zero p leased
head_fits p c rest leased enough =
    ground (arith, string_eq.same_iff p p, get_or_zero-cons p p c rest, enough p)

-- Where each pool has leased what is released, the loop returns, and subtracts it.
module _ (j : String) where
  pub subtract_all-exact :
      (granted leased : Resources)
      → NodupKeys granted
      → ((i : String) → get_or_zero i granted ≤ get_or_zero i leased)
      → ((subtract_all granted leased).1 ≡ ok tt)
        × (get_or_zero j (subtract_all granted leased).0 + get_or_zero j granted
            ≡ get_or_zero j leased)
  unfolding subtract_all
  subtract_all-exact [] leased nodup enough = (refl, omega (arith, get_or_zero-nil j))
  subtract_all-exact ((p, c) ∷ rest) leased nodup enough = ground (
    arith,
    string_eq.same_iff p j,
    head_fits p c rest leased enough,
    get_or_zero-fresh p rest nodup.0,
    get_or_zero-cons j p c rest,
    get_or_zero-insert j p (get_or_zero p leased - c) leased,
    subtract_all-exact rest (insert p (get_or_zero p leased - c) leased) nodup.1
        (enough_left p c rest leased nodup.0 enough),
  )

-- No pool has more leased than its capacity.
pub record IsWithin (m : LeaseManager) : Type 0 where
  pub at_pool : (j : String) → get_or_zero j m.leased ≤ get_or_zero j m.capacities

fits-le :
    (m : LeaseManager) (j : String) (required : Resources)
    → NodupKeys required
    → all (fits_one m) required ≡ true
    → get_or_zero j m.leased ≤ get_or_zero j m.capacities
    → get_or_zero j m.leased + get_or_zero j required ≤ get_or_zero j m.capacities
fits-le m j [] nodup h le = omega (arith, get_or_zero-nil j)
fits-le m j ((p, c) ∷ rest) nodup h le =
    ground (arith, string_eq.same_iff p j, get_or_zero-cons j p c rest, fits-le m j rest nodup.1)

-- Where every pool is within its capacity, a reservation for distinct pools, refused or granted,
-- leaves every pool within its capacity.
pub reserve-IsWithin :
    (m : LeaseManager) (required : Resources)
    → NodupKeys required
    → IsWithin m
    → IsWithin (reserve required m).0
unfolding reserve
reserve-IsWithin m required nodup w = record {
  at_pool = λ j. ground (
    arith,
    w.at_pool j,
    fits-le m j required nodup,
    get_or_zero-add_all j required m.leased nodup,
  );
}

-- Where every pool is within its capacity, a release, also one that raises halfway, leaves every
-- pool within its capacity.
release-IsWithin :
    (m : LeaseManager) (granted : Resources) → IsWithin m → IsWithin (release granted m).0
unfolding release
release-IsWithin m granted w = record {
  at_pool = λ j. omega (arith, w.at_pool j, subtract_all-le j granted m.leased);
}

module _ (required leased : Resources) (nodup : NodupKeys required) where
  enough_after : (i : String) → get_or_zero i required ≤ get_or_zero i (add_all required leased)
  enough_after i = omega (arith, get_or_zero-add_all i required leased nodup)

  release_cancels :
      (j : String)
      → ((subtract_all required (add_all required leased)).1 ≡ ok tt)
        × (get_or_zero j (subtract_all required (add_all required leased)).0 ≡ get_or_zero j leased)
  release_cancels j =
      let (returns, exact) =
        subtract_all-exact j required (add_all required leased) nodup enough_after in
      (returns, omega (arith, exact, get_or_zero-add_all j required leased nodup))

-- Where a request with distinct pools fits, releasing what was just reserved for it succeeds, and
-- every pool has leased what it had before.
pub release-reserve :
    (m : LeaseManager) (required : Resources)
    → NodupKeys required
    → fits m required ≡ true
    → let (held, _) = reserve required m in
      ((release required held).1 ≡ ok tt)
      × ((j : String) → get_or_zero j (release required held).0.leased ≡ get_or_zero j m.leased)
unfolding reserve release
release-reserve m required nodup h = rw (h) (
  (release_cancels required m.leased nodup "").0,
  λ j. (release_cancels required m.leased nodup j).1,
)

all-can_ever_fit :
    (m : LeaseManager) (required : Resources)
    → all (fits_one m) required ≡ true
    → all (λ (pool, count). leb count (get_or_zero pool m.capacities)) required ≡ true
all-can_ever_fit m [] h = refl
all-can_ever_fit m ((p, c) ∷ rest) h = ground (arith, all-can_ever_fit m rest)

-- A request that fits now is never one that the worker marks as impossible.
pub can_ever_fit_of_fits :
    (m : LeaseManager) (required : Resources)
    → fits m required ≡ true
    → can_ever_fit m required ≡ true
unfolding fits can_ever_fit
can_ever_fit_of_fits = all-can_ever_fit
