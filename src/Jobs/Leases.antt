-- ===== src/Jobs/Leases.antt =====
-- Counted resource leases of the job worker (src/sutradhara/jobs/leases.py).
-- The manager's lock makes each method one step; a method returns the new tally and its result.
-- Counts handed to the manager are naturals: they come from `normalize_required_resources`.
pub mod Tally
pub mod Requests
use sutradhara.Prelude.{
  ℕ, ◌+◌, ◌-◌, String, Bool, Option, none, some, List, [], ◌∷◌, ltb, leb, nat_beq, if◌then◌else◌,
  ◌==◌, string_eq, all, map, Result, ok, err, ◌>>=◌,
}
use sutradhara.Jobs.Json.{Json, int, str}
use sutradhara.Prelude.Int.{ℤ, pos, negsuc}
use sutradhara.Prelude.Dict.{Dict, lookup, insert}

-- One entry of `required_resources`: an object, or a value of another type.
pub data Entry : Type 0 where
  object : Dict String Json → Entry
  not_object : Entry

-- The reasons for which `LeaseError` is raised.
pub data LeaseError : Type 0 where
  entry_type pool_type count_type negative_count negative_capacity : LeaseError
  does_not_fit exceeds_leased : LeaseError

abbrev pub Resources : Type 0
Resources = Dict String ℕ

abbrev pub get_or_zero : String → Resources → ℕ
get_or_zero pool d = elim (lookup pool d) [ none ↦ 0 | some n ↦ n ]

-- `isinstance(pool, str) and pool`
abbrev pool_name : Option Json → Result LeaseError String
pool_name (some (str s)) = if s == "" then err pool_type else ok s
pool_name _ = err pool_type

-- A JSON boolean is no count, though Python's `bool` is an `int`.
abbrev item_count : Option Json → Result LeaseError ℕ
item_count (some (int (pos n))) = ok n
item_count (some (int (negsuc n))) = err negative_count
item_count _ = err count_type

unfoldable pub read_entry : Entry → Result LeaseError (String × ℕ)
unfolding lookup
read_entry not_object = err entry_type
read_entry (object item) = do
  pool ← pool_name (lookup "pool" item)
  count ← item_count (lookup "count" item)
  ok (pool, count)

abbrev pub add_count : Resources → String × ℕ → Resources
add_count resources (pool, count) =
    if nat_beq count 0
    then resources
    else insert pool (get_or_zero pool resources + count) resources

pub normalize_from : Resources → List Entry → Result LeaseError Resources
normalize_from resources [] = ok resources
normalize_from resources (item ∷ rest) = do
  entry ← read_entry item
  normalize_from (add_count resources entry) rest

unfoldable pub normalize_required_resources : List Entry → Result LeaseError Resources
unfolding normalize_from read_entry insert
normalize_required_resources raw = normalize_from [] raw

pub record LeaseManager : Type 0 where
  pub capacities : Resources
  pub leased : Resources

abbrev capacity_count : ℤ → Result LeaseError ℕ
capacity_count (pos n) = ok n
capacity_count (negsuc n) = err negative_capacity

read_capacities : Dict String ℤ → Result LeaseError Resources
read_capacities [] = ok []
read_capacities ((pool, count) ∷ rest) = do
  n ← capacity_count count
  others ← read_capacities rest
  ok ((pool, n) ∷ others)

zeros : Resources → Resources
zeros = map (λ (pool, _). (pool, 0))

-- `LeaseManager(capacities)`
unfoldable pub new : Dict String ℤ → Result LeaseError LeaseManager
unfolding read_capacities zeros
new capacities = do
  counts ← read_capacities capacities
  ok (record { capacities = counts; leased = zeros counts })

module _ (m : LeaseManager) where
  -- `count <= capacity - leased`, where the difference may be negative
  abbrev pub fits_one : String × ℕ → Bool
  fits_one (pool, count) = leb (get_or_zero pool m.leased + count) (get_or_zero pool m.capacities)

  unfoldable pub fits : Resources → Bool
  fits required = all fits_one required

  unfoldable pub can_ever_fit : Resources → Bool
  can_ever_fit required = all (λ (pool, count). leb count (get_or_zero pool m.capacities)) required

-- `self._leased[pool] = self._leased.get(pool, 0) + count`, for each entry in turn
unfoldable pub add_all : Resources → Resources → Resources
add_all [] leased = leased
add_all ((pool, count) ∷ rest) leased =
    add_all rest (insert pool (get_or_zero pool leased + count) leased)

unfoldable pub reserve : Resources → LeaseManager → LeaseManager × Result LeaseError Resources
unfolding fits
reserve required m =
    if fits m required
    then (record m { leased = add_all required m.leased }, ok required)
    else (m, err does_not_fit)

-- The loop of `release`: what was subtracted before the error stays subtracted.
unfoldable pub subtract_all : Resources → Resources → Resources × Result LeaseError (Unit {0})
subtract_all [] leased = (leased, ok tt)
subtract_all ((pool, count) ∷ rest) leased =
    let current = get_or_zero pool leased in
    let onward = subtract_all rest (insert pool (current - count) leased) in
    if ltb current count then (leased, err exceeds_leased) else onward

unfoldable pub release : Resources → LeaseManager → LeaseManager × Result LeaseError (Unit {0})
unfolding subtract_all
release granted m =
    let (leased, result) = subtract_all granted m.leased in (record m { leased = leased }, result)
