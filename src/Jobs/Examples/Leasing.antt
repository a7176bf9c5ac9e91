-- ===== src/Jobs/Examples/Leasing.antt =====
-- Runs of the lease tally (src/sutradhara/jobs/leases.py) on concrete pools.
use sutradhara.Prelude.{
  ℕ, ◌≡◌, refl, ◌⊎◌, String, true, none, some, List, [], ◌∷◌, arith, string_eq, ok, err,
}
use sutradhara.Prelude.Int.{pos}
use sutradhara.Prelude.Dict.{NodupKeys, lookup}
use sutradhara.Jobs.Json.{int, str}
use sutradhara.Jobs.Leases.{
  Resources, Entry, object, LeaseManager, LeaseError, normalize_required_resources, fits, reserve,
  release, get_or_zero,
}
use sutradhara.Jobs.Leases.Tally.{IsWithin, release-reserve}
use sutradhara.Jobs.Leases.Requests.{first_error, demand, normalize-Describes}

abbrev io : ℕ → Resources
io n = ("io", n) ∷ []

abbrev idle : LeaseManager
idle = record { capacities = io 4; leased = io 0 }

abbrev half : LeaseManager
half = record { capacities = io 4; leased = io 2 }

io-NodupKeys : (n : ℕ) → NodupKeys (io n)
unfolding lookup
io-NodupKeys n = (refl, tt)

half-IsWithin : IsWithin half
unfolding lookup
half-IsWithin = record { at_pool = λ j. ground arith }

half-fits : fits half (io 2) ≡ true
unfolding fits lookup
half-fits = refl

release-reserve_example :
    let (held, _) = reserve (io 2) half in
    ((release (io 2) held).1 ≡ ok tt)
    × ((j : String) → get_or_zero j (release (io 2) held).0.leased ≡ get_or_zero j half.leased)
release-reserve_example = release-reserve half (io 2) (io-NodupKeys 2) half-fits

-- Two entries of one pool, and one that asks for nothing.
abbrev entries : List Entry
entries =
    object (("pool", str "io") ∷ ("count", int (pos 1)) ∷ [])
    ∷ object (("pool", str "cpu") ∷ ("count", int (pos 0)) ∷ [])
    ∷ object (("pool", str "io") ∷ ("count", int (pos 2)) ∷ [])
    ∷ []

normalize_test : normalize_required_resources entries ≡ ok (io 3)
unfolding normalize_required_resources
normalize_test = refl

normalize-Describes_example :
    ((first_error entries ≡ none)
      × (r : Resources) × (normalize_required_resources entries ≡ ok r)
      × NodupKeys r
      × ((j : String) → get_or_zero j r ≡ demand j entries))
    ⊎ ((e : LeaseError) × (first_error entries ≡ some e)
        × (normalize_required_resources entries ≡ err e))
normalize-Describes_example = normalize-Describes entries
