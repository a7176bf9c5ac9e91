-- ===== src/Jobs/Conditions/Append.antt =====
-- New rows of the condition table (src/sutradhara/jobs/reconcilers/conditions.py).
use sutradhara.Prelude.{
  ℕ, ◌+◌, ◌≡◌, refl, ◌≢◌, sym, subst, String, none, some, List, [], ◌∷◌, ◌++◌, arith, if◌then◌else◌,
}
use sutradhara.Jobs.Conditions.{Conditions, has_key, get_condition}
use sutradhara.Jobs.Conditions.Keys.{
  Row, find_id, UniqueIds, UniqueKeys, BelowId, IsTable, has_key_both, has_key_self,
}

-- A row appended under a key that the table does not have.
module _ (row : Row) where
  pub get-append :
      (d k : String) (rows : List Row)
      → get_condition row.domain row.target_key rows ≡ none
      → get_condition d k (rows ++ row ∷ [])
        ≡ (if has_key d k row then some row else get_condition d k rows)
  unfolding get_condition
  get-append d k [] h = refl
  get-append d k (r ∷ rows) h = ground (arith, get-append d k rows, has_key_both d k row r)

  find_id-append :
      (i : ℕ) (rows : List Row)
      → find_id i rows ≡ none
      → i ≢ row.id
      → find_id i (rows ++ row ∷ []) ≡ none
  find_id-append i [] h n = ground arith
  find_id-append i (r ∷ rows) h n = ground (arith, find_id-append i rows)

  append-UniqueIds :
      (rows : List Row) → UniqueIds rows → BelowId row.id rows → UniqueIds (rows ++ row ∷ [])
  append-UniqueIds [] u b = (refl, tt)
  append-UniqueIds (r ∷ rows) (fresh, u) (h, b) =
      (find_id-append r.id rows fresh (omega arith), append-UniqueIds rows u b)

  append-BelowId :
      (n : ℕ) (rows : List Row) → BelowId n rows → row.id ≡ n → BelowId (n + 1) (rows ++ row ∷ [])
  append-BelowId n [] b e = (omega arith, tt)
  append-BelowId n (r ∷ rows) (h, b) e = (omega arith, append-BelowId n rows b e)

  append-UniqueKeys :
      (rows : List Row)
      → UniqueKeys rows
      → get_condition row.domain row.target_key rows ≡ none
      → UniqueKeys (rows ++ row ∷ [])
  unfolding get_condition
  append-UniqueKeys [] u h = (refl, tt)
  append-UniqueKeys (r ∷ rows) (fresh, u) h = (
    ground (
      arith,
      get-append r.domain r.target_key rows,
      has_key_both r.domain r.target_key row r,
      has_key_self r,
    ),
    append-UniqueKeys rows u (ground arith),
  )

-- The append of a row with the next id.
pub append-IsTable :
    (t : Conditions) (row : Row)
    → row.id ≡ t.next_id
    → get_condition row.domain row.target_key t.rows ≡ none
    → IsTable t
    → IsTable (record t { rows = t.rows ++ row ∷ []; next_id = t.next_id + 1 })
append-IsTable t row e h w = record {
  ids = append-UniqueIds row t.rows w.ids (subst (λ n. BelowId n t.rows) (sym e) w.below);
  keys = append-UniqueKeys row t.rows w.keys h;
  below = append-BelowId row t.next_id t.rows w.below e;
}
