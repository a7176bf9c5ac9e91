-- ===== src/Jobs/Conditions/Axes.antt =====
-- The two axes of a condition (src/sutradhara/jobs/reconcilers/conditions.py): observations create
-- rows and own reality, attempts change the attempt axis alone, and the table stays a map.
use sutradhara.Prelude.{
  ℕ, ◌+◌, ◌≡◌, inl, inr, String, Bool, Option, none, some, List, [], ◌∷◌, ◌++◌, arith,
  if◌then◌else◌, ◌==◌, ◌&&◌, ◌∙◌, string_eq, ok, Option-cases,
}
use sutradhara.Jobs.Model.{JobAttempt}
use sutradhara.Jobs.Conditions.{
  Conditions, Projection, has_key, get_condition, save, observe, new_row, observe_found,
  record_observation, project,
}
use sutradhara.Jobs.Conditions.Keys.{
  Row, IsTable, SameIdentity, save-IsTable, get-save, has_key_of_get, has_key_iff,
}
use sutradhara.Jobs.Conditions.Append.{append-IsTable, get-append}

module _ (now : ℕ) (desired : Bool) (observed_state : String) (reason message : Option String) where
  observe-SameIdentity :
      (row : Row) → SameIdentity (observe now desired observed_state reason message row) row
  unfolding observe
  observe-SameIdentity row = ground arith

-- What an attempt leaves alone: who the row is, and what was observed.
pub record SameReality (a b : Row) : Type 0 where
  pub identity : SameIdentity a b
  pub observed_state : a.observed_state ≡ b.observed_state

-- An attempt outcome changes neither the identity of a row nor its observed state.
pub project-SameReality :
    (draw : ℕ → ℕ → ℕ) (now : ℕ) (p : Projection) (attempt : Option JobAttempt) (row row' : Row)
    → project draw now p attempt row ≡ ok row'
    → SameReality row' row
unfolding project
project-SameReality draw now p attempt row row' h = ground arith

has_key_at :
    (domain target_key d k : String) (row : Row)
    → row.domain ≡ domain
    → row.target_key ≡ target_key
    → has_key d k row ≡ (domain == d && target_key == k)
unfolding has_key
has_key_at domain target_key d k row p q = cc (p, q)

identity_of_get :
    (d k : String) (row : Row) (rows : List Row)
    → get_condition d k rows ≡ some row
    → (row.domain ≡ d) × (row.target_key ≡ k)
identity_of_get d k row rows h = has_key_iff d k row (has_key_of_get d k row rows h)

-- The table as a client sees it: the row of each key.
abbrev pub view : Conditions → String → String → Option Row
view t d k = get_condition d k t.rows

-- A save of what an operation makes of the row under a key changes that key alone.
module _ (domain target_key : String) (t : Conditions) (row row' : Row)
    (found : view t domain target_key ≡ some row) (same : SameIdentity row' row)
    (w : IsTable t) where
  found_self : get_condition row.domain row.target_key t.rows ≡ some row
  found_self = let (p, q) = identity_of_get domain target_key row t.rows found in cc (p, q)

  pub view-save :
      (d k : String)
      → get_condition d k (save row' t.rows)
        ≡ (if domain == d && target_key == k then some row' else view t d k)
  view-save d k =
      let (p, q) = identity_of_get domain target_key row t.rows found in
      ground (
        arith,
        get-save d k row row' t.rows same w.ids found_self,
        has_key_at domain target_key d k row' (same.domain ∙ p) (same.target_key ∙ q),
      )

  pub save_found-IsTable : IsTable (record t { rows = save row' t.rows })
  save_found-IsTable = save-IsTable t row row' same found_self w

-- The row that an observation starts from.
abbrev pub found_or_new : ℕ → String → String → String → Conditions → Row
found_or_new now domain target_key observed_state t = elim (view t domain target_key) [
  | some row ↦ row
  | none ↦ new_row t.next_id now domain target_key observed_state
]

module _ (now : ℕ) (domain target_key : String) (desired : Bool) (observed_state : String)
    (reason message : Option String) (t : Conditions) (w : IsTable t) where
  abbrev first : Row
  first =
      observe now desired observed_state reason message
        (new_row t.next_id now domain target_key observed_state)

  first_identity :
      (first.id ≡ t.next_id) × (first.domain ≡ domain) × (first.target_key ≡ target_key)
  unfolding new_row observe
  first_identity = ground arith

  first_fresh :
      view t domain target_key ≡ none → get_condition first.domain first.target_key t.rows ≡ none
  first_fresh e = let (_, p, q) = first_identity in cc (p, q)

  first-IsTable :
      view t domain target_key ≡ none
      → IsTable (record t { rows = t.rows ++ first ∷ []; next_id = t.next_id + 1 })
  first-IsTable e = append-IsTable t first first_identity.0 (first_fresh e) w

  first-view :
      (d k : String)
      → view t domain target_key ≡ none
      → get_condition d k (t.rows ++ first ∷ [])
        ≡ (if domain == d && target_key == k then some first else view t d k)
  first-view d k e =
      let (_, p, q) = first_identity in
      ground (
        arith,
        get-append first d k t.rows (first_fresh e),
        has_key_at domain target_key d k first p q,
      )

  -- In a table with unique ids and keys an observation is one write to the map of keys: its own
  -- key gets the observed row, made from the row that was there or from a new one, and every other
  -- key keeps its row.
  pub record_observation-view :
      (d k : String)
      → view (record_observation now domain target_key desired observed_state reason message t) d k
        ≡ (if domain == d && target_key == k
            then some (
                observe now desired observed_state reason message
                  (found_or_new now domain target_key observed_state t))
            else view t d k)
  unfolding record_observation observe_found
  record_observation-view d k = elim (Option-cases (view t domain target_key)) [
    | inl e ↦ ground (arith, first-view d k e)
    | inr (row, e) ↦ ground (
      arith,
      view-save domain target_key t row (observe now desired observed_state reason message row) e
          (observe-SameIdentity now desired observed_state reason message row) w d k,
    )
  ]

  -- In a table with unique ids and keys and a fresh next id, an observation keeps them so.
  pub record_observation-IsTable :
      IsTable (record_observation now domain target_key desired observed_state reason message t)
  unfolding record_observation
  record_observation-IsTable = elim (Option-cases (view t domain target_key)) [
    | inl e ↦ rw (e, observe_found) (first-IsTable e)
    | inr (row, e) ↦
        rw (e, observe_found)
          (save_found-IsTable domain target_key t row
            (observe now desired observed_state reason message row) e
            (observe-SameIdentity now desired observed_state reason message row) w)
  ]
