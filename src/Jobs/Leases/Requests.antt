-- ===== src/Jobs/Leases/Requests.antt =====
-- What `normalize_required_resources` and `LeaseManager(capacities)` make of their input
-- (src/sutradhara/jobs/leases.py).
use sutradhara.Prelude.{
  ℕ, ◌+◌, ◌≡◌, refl, ◌⊎◌, inl, inr, String, Option, none, some, List, [], ◌∷◌, arith, ◌==◌,
  string_eq, Result, ok, err, if◌then◌else◌, Result-cases,
}
use sutradhara.Prelude.Int.{ℤ}
use sutradhara.Prelude.Dict.{Dict, NodupKeys, insert-NodupKeys}
use sutradhara.Jobs.Leases.{
  Entry, Resources, LeaseManager, LeaseError, get_or_zero, read_entry, add_count, normalize_from,
  normalize_required_resources, read_capacities, zeros, new,
}
use sutradhara.Jobs.Leases.Tally.{IsWithin, get_or_zero-nil, get_or_zero-cons, get_or_zero-insert}

abbrev share : String → Result LeaseError (String × ℕ) → ℕ
share j (ok (p, c)) = if p == j then c else 0
share j (err _) = 0

-- What a declaration asks of one pool: the sum over its entries.
abbrev pub demand : String → List Entry → ℕ
demand j [] = 0
demand j (item ∷ rest) = share j (read_entry item) + demand j rest

abbrev or_else : Result LeaseError (String × ℕ) → Option LeaseError → Option LeaseError
or_else (ok _) e = e
or_else (err e) _ = some e

-- The error of the first entry that is not a resource entry.
abbrev pub first_error : List Entry → Option LeaseError
first_error [] = none
first_error (item ∷ rest) = or_else (read_entry item) (first_error rest)

-- The dict that was built holds each pool once, with what is asked of it.
abbrev Describes : List Entry → Resources → Result LeaseError Resources → Type 0
Describes raw acc (err e) = first_error raw ≡ some e
Describes raw acc (ok r) =
    (first_error raw ≡ none)
    × NodupKeys r
    × ((j : String) → get_or_zero j r ≡ get_or_zero j acc + demand j raw)

add_count-NodupKeys :
    (acc : Resources) (p : String) (c : ℕ) → NodupKeys acc → NodupKeys (add_count acc (p, c))
add_count-NodupKeys acc p c h = ground (arith, insert-NodupKeys p (get_or_zero p acc + c) acc h)

get_or_zero-add_count :
    (j : String) (acc : Resources) (p : String) (c : ℕ)
    → get_or_zero j (add_count acc (p, c)) ≡ get_or_zero j acc + (if p == j then c else 0)
get_or_zero-add_count j acc p c =
    ground (arith, string_eq.same_iff p j, get_or_zero-insert j p (get_or_zero p acc + c) acc)

module _ (acc : Resources) (item : Entry) (rest : List Entry) where
  -- one entry that is read, and the entries behind it
  Describes-cons :
      (p : String) (c : ℕ)
      → read_entry item ≡ ok (p, c)
      → (r : Result LeaseError Resources) → Describes rest (add_count acc (p, c)) r
      → Describes (item ∷ rest) acc r
  Describes-cons p c h (err e) d = ground arith
  Describes-cons p c h (ok r) (whole, nodup, sums) =
      (ground arith, nodup, λ j. ground (arith, sums j, get_or_zero-add_count j acc p c))

normalize_from-Describes :
    (acc : Resources) (raw : List Entry)
    → NodupKeys acc
    → Describes raw acc (normalize_from acc raw)
unfolding normalize_from
normalize_from-Describes acc [] h = (refl, h, λ j. omega arith)
normalize_from-Describes acc (item ∷ rest) h = elim (Result-cases (read_entry item)) [
  | inl ((p, c), e) ↦
      let d =
        normalize_from-Describes (add_count acc (p, c)) rest (add_count-NodupKeys acc p c h) in
      Describes-cons acc item rest p c e (normalize_from acc (item ∷ rest)) (rw e d)
  | inr (e, h') ↦ rw h' (ground arith)
]

-- A declaration is normalised to a dict that holds each pool once, with the sum of what its entries
-- ask of it, unless some entry is malformed: then the error of the first such entry is raised.
pub normalize-Describes :
    (raw : List Entry)
    → ((first_error raw ≡ none)
        × (r : Resources) × (normalize_required_resources raw ≡ ok r)
        × NodupKeys r
        × ((j : String) → get_or_zero j r ≡ demand j raw))
      ⊎ ((e : LeaseError) × (first_error raw ≡ some e) × (normalize_required_resources raw ≡ err e))
unfolding normalize_required_resources
normalize-Describes raw =
    let d = normalize_from-Describes [] raw tt in
    elim (Result-cases (normalize_from [] raw)) [
      | inl (r, e) ↦
          let (whole, nodup, sums) = rw e at d in
          inl (whole, r, e, nodup, λ j. omega (arith, sums j, get_or_zero-nil j))
      | inr (e, h) ↦ inr (e, rw h at d, h)
    ]

zeros-zero : (j : String) (counts : Resources) → get_or_zero j (zeros counts) ≡ 0
unfolding zeros
zeros-zero j [] = get_or_zero-nil j
zeros-zero j ((p, c) ∷ rest) =
    ground (arith, zeros-zero j rest, get_or_zero-cons j p 0 (zeros rest))

new-zero :
    (capacities : Dict String ℤ) (m : LeaseManager)
    → new capacities ≡ ok m
    → (j : String) → get_or_zero j m.leased ≡ 0
unfolding new
new-zero capacities m h j = elim (Result-cases (read_capacities capacities)) [
  | inl (counts, e) ↦ ground (arith, zeros-zero j counts)
  | inr (x, e) ↦ ground arith
]

-- A new manager has leased nothing, so it is within its capacities, whatever they are.
pub new-IsWithin :
    (capacities : Dict String ℤ) (m : LeaseManager) → new capacities ≡ ok m → IsWithin m
new-IsWithin capacities m h = record { at_pool = λ j. omega (arith, new-zero capacities m h j) }
