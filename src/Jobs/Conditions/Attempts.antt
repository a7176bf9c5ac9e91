-- ===== src/Jobs/Conditions/Attempts.antt =====
-- What an attempt outcome does to the condition table
-- (`record_condition` of src/sutradhara/jobs/reconcilers/conditions.py).
use sutradhara.Prelude.{
  ℕ, ◌≡◌, inl, inr, String, Option, none, some, arith, if◌then◌else◌, ◌==◌, ◌&&◌, string_eq, Result,
  ok, err, Option-cases, Result-cases,
}
use sutradhara.Jobs.Model.{JobAttempt}
use sutradhara.Jobs.Conditions.{
  Conditions, ConditionError, Projection, project, project_found, record_condition, no_condition,
  snapshot_if_parked, save, reopen, reopen_condition,
}
use sutradhara.Jobs.Conditions.Keys.{Row, IsTable, SameIdentity}
use sutradhara.Jobs.Conditions.Axes.{
  SameReality, project-SameReality, view, view-save, save_found-IsTable,
}

-- The table `t'` is `t` with the row of one key replaced, and is a map again.
pub record Replaces (domain target_key : String) (row' : Row) (t t' : Conditions) : Type 0 where
  pub views :
      (d k : String)
      → view t' d k ≡ (if domain == d && target_key == k then some row' else view t d k)
  pub table : IsTable t'

-- The outcome of an attempt with its row, or without one.
pub data Recorded (domain target_key : String) (made : Row → Result ConditionError Row)
    (t : Conditions) (r : Result ConditionError Conditions) : Type 0 where
  missing :
      view t domain target_key ≡ none → r ≡ err no_condition → Recorded domain target_key made t r
  raised :
      (row : Row) (e : ConditionError)
      → view t domain target_key ≡ some row
      → made row ≡ err e
      → r ≡ err e
      → Recorded domain target_key made t r
  saved :
      (row row' : Row) (t' : Conditions)
      → view t domain target_key ≡ some row
      → made row ≡ ok row'
      → SameReality row' row
      → r ≡ ok t'
      → Replaces domain target_key row' t t'
      → Recorded domain target_key made t r

module _ (draw : ℕ → ℕ → ℕ) (now : ℕ) (domain target_key : String) (p : Projection)
    (attempt : Option JobAttempt) (t : Conditions) (w : IsTable t) where
  -- In a table with unique ids and keys an attempt never creates a row: with no row for its key it
  -- raises. Otherwise it raises what the projection raises, or replaces the row of its key by the
  -- projected one, whose observed state is the old one, and leaves every other key and the table's
  -- keys as they were.
  pub record_condition-Recorded :
      Recorded domain target_key
        (project draw now p attempt)
        t
        (record_condition draw now domain target_key p attempt t)
  unfolding record_condition
  record_condition-Recorded = elim (Option-cases (view t domain target_key)) [
    | inl e ↦ missing e (rw (e, project_found))
    | inr (row, e) ↦ elim (Result-cases (project draw now p attempt row)) [
      | inr (x, h) ↦ raised row x e h (rw (e, project_found, h))
      | inl (row', h) ↦
          let same = project-SameReality draw now p attempt row row' h in
          saved row row'
            (record t {
              rows = save row' t.rows;
              components = snapshot_if_parked attempt row row' t.components;
            })
            e h same (rw (e, project_found, h))
            (record {
              views = view-save domain target_key t row row' e same.identity w;
              table =
                  let kept = save_found-IsTable domain target_key t row row' e same.identity w in
                  record { ids = kept.ids; keys = kept.keys; below = kept.below };
            })
    ]
  ]

reopen-SameIdentity :
    (now : ℕ) (message : String) (row : Row) → SameIdentity (reopen now message row) row
unfolding reopen
reopen-SameIdentity now message row = ground arith

-- Reopening the row of a key replaces that row alone.
pub reopen_condition-Replaces :
    (now : ℕ) (message domain target_key : String) (row : Row) (t : Conditions)
    → IsTable t
    → view t domain target_key ≡ some row
    → Replaces domain target_key (reopen now message row) t (reopen_condition now message row t)
unfolding reopen_condition
reopen_condition-Replaces now message domain target_key row t w e =
    let same = reopen-SameIdentity now message row in
    record {
      views = view-save domain target_key t row (reopen now message row) e same w;
      table = save_found-IsTable domain target_key t row (reopen now message row) e same w;
    }
