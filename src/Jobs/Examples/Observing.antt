-- ===== src/Jobs/Examples/Observing.antt =====
-- Observations and attempt outcomes (src/sutradhara/jobs/reconcilers/conditions.py) on a concrete table.
use sutradhara.Prelude.{
  ℕ, ◌+◌, ◌*◌, ◌^◌, ◌≤◌, ◌≡◌, refl, ◌⊎◌, String, Bool, true, false, none, some, [], ◌∷◌, arith, ok,
  err, min, if◌then◌else◌, ◌&&◌, ◌==◌, string_eq, nat_eq, Memᴰ, ◌↔◌,
}
use sutradhara.Prelude.Dict.{lookup}
use sutradhara.Jobs.Config.{jittered_backoff_seconds}
use sutradhara.Jobs.Config.Backoff.{jittered_bounds}
use sutradhara.Jobs.Model.{ReconciliationCondition, backoff, BatchObject, StepState}
use sutradhara.Jobs.Conditions.{
  Projection, record_observation, record_condition, observe, project, default_backoff_due,
  float_overflow, get_condition, link_attempt, set_blocked_tool,
}
use sutradhara.Jobs.Conditions.Keys.{IsTable}
use sutradhara.Jobs.Conditions.Axes.{view, found_or_new, record_observation-view}
use sutradhara.Jobs.Conditions.Attempts.{Recorded, record_condition-Recorded}
use sutradhara.Jobs.Conditions.Due.{
  IsScheduled, project-IsScheduled, project_due, project_overflows,
}
use sutradhara.Jobs.Context.{record_batch_written, record_batch_checkpointed, other_than, committed}
use sutradhara.Jobs.Context.Checkpoints.{open_objects, written, written-exact, checkpointed-exact}
use sutradhara.Jobs.Examples.{open_row, one_condition, draw_lower, empty_state}
use sutradhara.Jobs.Examples.Running.{draw_lower-IsUniform}

one-IsTable : IsTable one_condition
unfolding get_condition
one-IsTable = record { ids = ground arith; keys = ground arith; below = ground arith }

abbrev domain : String
domain = "media.copies"

abbrev asset : String
asset = "asset"

abbrev other : String
other = "other"

record_observation-view_example :
    view (record_observation 5 domain asset true "present" none none one_condition) domain other ≡ (
      if domain == domain && asset == other
      then some
          (observe 5 true "present" none none (found_or_new 5 domain asset "present" one_condition))
      else view one_condition domain other)
record_observation-view_example =
    record_observation-view 5 domain asset true "present" none none one_condition one-IsTable domain
      other

abbrev backing_off : Bool → Projection
backing_off auto_block = record {
  condition = some backoff;
  reason = none;
  message = none;
  next_eligible_at = none;
  blocked_tool = none;
  auto_block = auto_block;
}

record_condition-Recorded_example :
    Recorded "media.copies" "asset"
      (project draw_lower 5 (backing_off true) none)
      one_condition
      (record_condition draw_lower 5 "media.copies" "asset" (backing_off true) none one_condition)
record_condition-Recorded_example =
    record_condition-Recorded draw_lower 5 "media.copies" "asset" (backing_off true) none
      one_condition one-IsTable

open-IsScheduled : IsScheduled open_row
open-IsScheduled = ground arith

abbrev counted : ℕ → ReconciliationCondition
counted n = record open_row { attempt_count = n }

abbrev projected_row : Bool → ℕ → ReconciliationCondition
projected_row auto_block n = elim (project draw_lower 5 (backing_off auto_block) none (counted n)) [
  | ok row ↦ row
  | err e ↦ open_row
]

project_returns :
    project draw_lower 5 (backing_off true) none (counted 2) ≡ ok (projected_row true 2)
unfolding project default_backoff_due jittered_backoff_seconds link_attempt set_blocked_tool
project_returns = refl

project-IsScheduled_example : IsScheduled (projected_row true 2)
project-IsScheduled_example =
    project-IsScheduled draw_lower 5 (backing_off true) none (counted 2) (projected_row true 2)
      (ground (arith, open-IsScheduled)) project_returns

project_due_example :
    (row' : ReconciliationCondition) × (due : ℕ) × (project draw_lower 5
        (backing_off false)
        none
        (counted 4)
      ≡ ok row')
    × (row'.condition ≡ backoff)
    × (row'.next_eligible_at ≡ some due)
    × (5 + min (48000000 * 2 ^ 4) 3600000000 ≤ due)
    × (due ≤ 5 + 3600000000)
project_due_example =
    project_due draw_lower 5 (backing_off false) none (counted 4) draw_lower-IsUniform refl refl
      refl (omega arith)

project_overflows_example :
    project draw_lower 5 (backing_off false) none (counted 1019) ≡ err float_overflow
project_overflows_example =
    project_overflows draw_lower 5 (backing_off false) none (counted 1019) refl refl refl
      (omega arith)

jittered_bounds_example :
    (delay : ℕ) × (jittered_backoff_seconds draw_lower 120 3600 ≡ ok delay)
    × (min (120 * 800000) (3600 * 1000000) ≤ delay)
    × (delay ≤ min (120 * 1200000) (3600 * 1000000))
jittered_bounds_example =
    jittered_bounds draw_lower draw_lower-IsUniform 120 3600 (omega arith) (omega arith)
      (omega arith)

-- Python's `<` of texts is not needed where the ordinals differ.
abbrev text_lt : String → String → Bool
text_lt a b = false

abbrev batch_state : StepState
batch_state = record empty_state { checkpoint_batches = ("b", written "x" 1 "/x" ∷ []) ∷ [] }

written-exact_example :
    let after = record_batch_written text_lt "b" 2 "y" "/y" batch_state in
    ((o : BatchObject)
      → Memᴰ o (open_objects "b" after) ↔ (
          (o ≡ written "y" 2 "/y")
          ⊎ Memᴰ o (open_objects "b" batch_state) × (other_than "y" o ≡ true)))
    × ((other : String)
        → lookup other after.checkpoint_batches ≡ (
            if "b" == other
            then lookup "b" after.checkpoint_batches
            else lookup other batch_state.checkpoint_batches))
written-exact_example = written-exact text_lt "b" batch_state 2 "y" "/y"

checkpointed-exact_example :
    let after = record_batch_checkpointed "b" ("x" ∷ []) batch_state in
    ((o : BatchObject)
      → Memᴰ o (open_objects "b" after)
        ↔ (Memᴰ o (open_objects "b" batch_state) × (committed ("x" ∷ []) o ≡ false)))
    × ((other : String)
        → lookup other after.checkpoint_batches ≡ (
            if "b" == other
            then lookup "b" after.checkpoint_batches
            else lookup other batch_state.checkpoint_batches))
checkpointed-exact_example = checkpointed-exact "b" batch_state ("x" ∷ [])
