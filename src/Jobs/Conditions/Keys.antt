-- ===== src/Jobs/Conditions/Keys.antt =====
-- The condition table as a map from keys to rows (src/sutradhara/jobs/reconcilers/conditions.py):
-- rows are saved by id and read by key, and the two agree while ids and keys are unique.
use sutradhara.Prelude.{
  ℕ, ◌<◌, ◌≡◌, refl, ◌≢◌, sym, subst, String, true, Option, none, some, List, [], ◌∷◌, arith,
  if◌then◌else◌, nat_eq, nat_beq, nat_beq_iff, string_eq, All, Bool-cases, inl, inr, ◌∙◌,
}
use sutradhara.Jobs.Model.{ReconciliationCondition}
use sutradhara.Jobs.Conditions.{Conditions, has_key, get_condition, save}

abbrev pub Row : Type 0
Row = ReconciliationCondition

abbrev pub find_id : ℕ → List Row → Option Row
find_id i [] = none
find_id i (r ∷ rows) = let rest = find_id i rows in if nat_beq r.id i then some r else rest

abbrev pub UniqueIds : List Row → Type 0
UniqueIds [] = Unit
UniqueIds (r ∷ rows) = (find_id r.id rows ≡ none) × UniqueIds rows

abbrev pub UniqueKeys : List Row → Type 0
UniqueKeys [] = Unit
UniqueKeys (r ∷ rows) = (get_condition r.domain r.target_key rows ≡ none) × UniqueKeys rows

abbrev pub BelowId : ℕ → List Row → Type 0
BelowId n = All (λ r. r.id < n)

-- Ids and keys are unique, and the next id is fresh.
pub record IsTable (t : Conditions) : Type 0 where
  pub ids : UniqueIds t.rows
  pub keys : UniqueKeys t.rows
  pub below : BelowId t.next_id t.rows

-- Two rows with one identity: a row and what an operation makes of it.
pub record SameIdentity (a b : Row) : Type 0 where
  pub id : a.id ≡ b.id
  pub domain : a.domain ≡ b.domain
  pub target_key : a.target_key ≡ b.target_key

save-absent : (row : Row) (rows : List Row) → find_id row.id rows ≡ none → save row rows ≡ rows
unfolding save
save-absent row [] h = refl
save-absent row (r ∷ rows) h = ground (arith, save-absent row rows)

find_id_of_get :
    (d k : String) (row : Row) (rows : List Row)
    → get_condition d k rows ≡ some row
    → find_id row.id rows ≢ none
unfolding get_condition
find_id_of_get d k row [] h e = cc
find_id_of_get d k row (r ∷ rows) h e = ground (arith, find_id_of_get d k row rows)

pub has_key_iff :
    (d k : String) (r : Row) → has_key d k r ≡ true → (r.domain ≡ d) × (r.target_key ≡ k)
unfolding has_key
has_key_iff d k r h =
    ground (arith, string_eq.same_iff r.domain d, string_eq.same_iff r.target_key k)

pub has_key_self : (r : Row) → has_key r.domain r.target_key r ≡ true
unfolding has_key
has_key_self r =
    ground
      (arith, string_eq.same_iff r.domain r.domain, string_eq.same_iff r.target_key r.target_key)

pub has_key_of_get :
    (d k : String) (row : Row) (rows : List Row)
    → get_condition d k rows ≡ some row
    → has_key d k row ≡ true
unfolding get_condition
has_key_of_get d k row [] h = cc
has_key_of_get d k row (r ∷ rows) h = ground (arith, has_key_of_get d k row rows)

-- `has_key` reads the identity alone.
has_key_same : (d k : String) (a b : Row) → SameIdentity a b → has_key d k a ≡ has_key d k b
unfolding has_key
has_key_same d k a b s = cc (s.domain, s.target_key)

-- Two keys that one row has are the same.
pub has_key_both :
    (d k : String) (a b : Row)
    → has_key d k a ≡ true
    → has_key d k b ≡ true
    → has_key a.domain a.target_key b ≡ true
has_key_both d k a b h h' =
    let (p, q) = has_key_iff d k a h in
    let (p', q') = has_key_iff d k b h' in rw (p ∙ sym p', q ∙ sym q') (has_key_self b)

-- Reading after a save: the saved row under its key, the old row under any other.
pub get-save :
    (d k : String) (row row' : Row) (rows : List Row)
    → SameIdentity row' row
    → UniqueIds rows
    → get_condition row.domain row.target_key rows ≡ some row
    → get_condition d k (save row' rows)
      ≡ (if has_key d k row' then some row' else get_condition d k rows)
unfolding get_condition save
get-save d k row row' [] s u h = cc
get-save d k row row' (r ∷ rows) s u h = elim (Bool-cases (has_key row.domain row.target_key r)) [
  | inl e ↦ ground (arith, save-absent row' rows, has_key_same d k row' row s)
  | inr e ↦
      let below : get_condition row.domain row.target_key rows ≡ some row = rw e at h in
      ground (
        arith,
        find_id_of_get row.domain row.target_key row rows below,
        get-save d k row row' rows s u.1 below,
        has_key_same d k row' row s,
        has_key_both d k row r,
      )
]

-- Whatever row has the id of `row'` also has its key.
abbrev KeepsKey : Row → List Row → Type 0
KeepsKey row' = All (λ r. r.id ≡ row'.id → SameIdentity row' r)

absent-KeepsKey : (row' : Row) (rows : List Row) → find_id row'.id rows ≡ none → KeepsKey row' rows
absent-KeepsKey row' [] h = tt
absent-KeepsKey row' (r ∷ rows) h =
    (λ e. absurd (ground arith), absent-KeepsKey row' rows (ground arith))

get-KeepsKey :
    (row row' : Row) (rows : List Row)
    → SameIdentity row' row
    → UniqueIds rows
    → get_condition row.domain row.target_key rows ≡ some row
    → KeepsKey row' rows
unfolding get_condition
get-KeepsKey row row' [] s u h = tt
get-KeepsKey row row' (r ∷ rows) s u h = elim (Bool-cases (has_key row.domain row.target_key r)) [
  | inl e ↦
      let same : r ≡ row = ground arith in
      (λ _. subst (SameIdentity row') (sym same) s, absent-KeepsKey row' rows (ground arith))
  | inr e ↦
      let below : get_condition row.domain row.target_key rows ≡ some row = rw e at h in
      (
        λ i. absurd (ground (arith, find_id_of_get row.domain row.target_key row rows below)),
        get-KeepsKey row row' rows s u.1 below,
      )
]

module _ (row' : Row) where
  find_id-save :
      (i : ℕ) (rows : List Row) → find_id i rows ≡ none → find_id i (save row' rows) ≡ none
  unfolding save
  find_id-save i [] h = refl
  find_id-save i (r ∷ rows) h = ground (arith, find_id-save i rows)

  save-UniqueIds : (rows : List Row) → UniqueIds rows → UniqueIds (save row' rows)
  unfolding save
  save-UniqueIds [] u = tt
  save-UniqueIds (r ∷ rows) (fresh, u) =
      (ground (arith, find_id-save r.id rows fresh), save-UniqueIds rows u)

  save-BelowId : (n : ℕ) (rows : List Row) → BelowId n rows → BelowId n (save row' rows)
  unfolding save
  save-BelowId n [] b = tt
  save-BelowId n (r ∷ rows) (h, b) = (ground arith, save-BelowId n rows b)

  get-save-none :
      (d k : String) (rows : List Row)
      → KeepsKey row' rows
      → get_condition d k rows ≡ none
      → get_condition d k (save row' rows) ≡ none
  unfolding get_condition save
  get-save-none d k [] keep h = refl
  get-save-none d k (r ∷ rows) (same, keep) h = elim (Bool-cases (nat_beq r.id row'.id)) [
    | inl e ↦ ground (
      arith,
      get-save-none d k rows keep,
      has_key_same d k row' r (same ((nat_beq_iff r.id row'.id).0 e)),
    )
    | inr e ↦ ground (arith, get-save-none d k rows keep)
  ]

  save-UniqueKeys :
      (rows : List Row) → KeepsKey row' rows → UniqueKeys rows → UniqueKeys (save row' rows)
  unfolding save
  save-UniqueKeys [] keep u = tt
  save-UniqueKeys (r ∷ rows) (same, keep) (fresh, u) = elim (Bool-cases (nat_beq r.id row'.id)) [
    | inl e ↦
        let i = same ((nat_beq_iff r.id row'.id).0 e) in
        (
          rw (e, i.domain, i.target_key) (get-save-none r.domain r.target_key rows keep fresh),
          save-UniqueKeys rows keep u,
        )
    | inr e ↦
        (rw e (get-save-none r.domain r.target_key rows keep fresh), save-UniqueKeys rows keep u)
  ]

-- A save of what an operation makes of the row under a key.
pub save-IsTable :
    (t : Conditions) (row row' : Row)
    → SameIdentity row' row
    → get_condition row.domain row.target_key t.rows ≡ some row
    → IsTable t
    → IsTable (record t { rows = save row' t.rows })
save-IsTable t row row' s h w = record {
  ids = save-UniqueIds row' t.rows w.ids;
  keys = save-UniqueKeys row' t.rows (get-KeepsKey row row' t.rows s w.ids h) w.keys;
  below = save-BelowId row' t.next_id t.rows w.below;
}
