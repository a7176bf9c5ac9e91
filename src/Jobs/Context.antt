-- ===== src/Jobs/Context.antt =====
-- The per-run context of a job (`JobContext` of src/sutradhara/jobs/registry.py) and its seeding
-- (`job_context`, `attempt_detail` of src/sutradhara/jobs/engine.py).
-- `hostname` is `socket.gethostname()`, and `str_int` is Python's `str` of an integer.
pub mod Checkpoints
use Prim.Native.String
use text.Mathlib.Text.{starts_with}
use sutradhara.Prelude.{
  ℕ, String, Bool, true, false, not, ◌&&◌, ◌||◌, Option, none, some, List, [], ◌∷◌, ◌++◌, any,
  filter, ltb, if◌then◌else◌, ◌==◌, nat_eq, string_eq,
}
use sutradhara.Prelude.Int.{ℤ}
use sutradhara.Prelude.Dict.{Dict, lookup, insert, erase}
use sutradhara.Jobs.Json.{Json, int, str}
use sutradhara.Jobs.Leases.{Resources}
use sutradhara.Jobs.Model.{Job, StepState, Batches, BatchObject, AttemptDetail}

pub record JobContext : Type 0 where
  pub granted_leases : Resources
  pub observations : List (Dict String Json)
  pub components : List String
  pub component_parents : List (String × String)

-- `if c not in components: components.append(c)`
unfoldable pub add_component : String → List String → List String
add_component c cs = if any (λ d. c == d) cs then cs else cs ++ c ∷ []

-- `touch(component)`; the components that the engine touches are not empty
unfoldable pub touch : String → JobContext → JobContext
unfolding add_component
touch c ctx = record ctx { components = add_component c ctx.components }

abbrev has_relation : String × String → List (String × String) → Bool
has_relation (c, p) = any (λ (d, q). c == d && p == q)

-- `touch(component, parent=parent)`
unfoldable pub touch_parent : String → String → JobContext → JobContext
unfolding add_component
touch_parent c p ctx = record ctx {
  components = add_component p (add_component c ctx.components);
  component_parents =
      if has_relation (c, p) ctx.component_parents
      then ctx.component_parents
      else ctx.component_parents ++ (c, p) ∷ [];
}

-- `observe(facts)`
unfoldable pub observe_facts : Dict String Json → JobContext → JobContext
observe_facts facts ctx = record ctx { observations = ctx.observations ++ facts ∷ [] }

abbrev pub objects_of : String → Batches → List BatchObject
objects_of batch_id batches = elim (lookup batch_id batches) [ none ↦ [] | some os ↦ os ]

abbrev pub other_than : String → BatchObject → Bool
other_than caller_object_id o = not (o.caller_object_id == caller_object_id)

-- The insertion of a batch object by ordinal and then by id; `text_lt` is Python's `<` of texts.
module _ (text_lt : String → String → Bool) where
  abbrev pub batch_before : BatchObject → BatchObject → Bool
  batch_before a b =
      ltb a.provisional_ordinal b.provisional_ordinal
      || (a.provisional_ordinal == b.provisional_ordinal
          && text_lt a.caller_object_id b.caller_object_id)

  -- `objects.sort(key=...)`, stable
  unfoldable pub insert_object : BatchObject → List BatchObject → List BatchObject
  insert_object o [] = o ∷ []
  insert_object o (x ∷ xs) =
      let rest = insert_object o xs in if batch_before o x then o ∷ x ∷ xs else x ∷ rest

  unfoldable pub sort_objects : List BatchObject → List BatchObject → List BatchObject
  sort_objects [] sorted = sorted
  sort_objects (o ∷ os) sorted = sort_objects os (insert_object o sorted)

  -- `record_batch_written`: one WRITTEN object is an obligation to requeue from byte zero
  unfoldable pub record_batch_written : String → ℕ → String → String → StepState → StepState
  unfolding sort_objects insert_object
  record_batch_written batch_id provisional_ordinal caller_object_id source state = record state {
    checkpoint_batches =
        insert batch_id
          (sort_objects
            (filter (other_than caller_object_id) (objects_of batch_id state.checkpoint_batches)
              ++ record {
                caller_object_id = caller_object_id;
                provisional_ordinal = provisional_ordinal;
                source = source;
                restart_offset = 0;
              }
                ∷ [])
            [])
          state.checkpoint_batches;
  }

abbrev pub committed : List String → BatchObject → Bool
committed ids o = any (λ i. o.caller_object_id == i) ids

abbrev pub put_objects : String → List BatchObject → Batches → Batches
put_objects batch_id [] batches = erase batch_id batches
put_objects batch_id (o ∷ os) batches = insert batch_id (o ∷ os) batches

abbrev pub checkpoint_found : String → List String → Option (List BatchObject) → Batches → Batches
checkpoint_found batch_id ids none batches = batches
checkpoint_found batch_id ids (some objects) batches =
    put_objects batch_id (filter (λ o. not (committed ids o)) objects) batches

-- `record_batch_checkpointed`: the objects that the committed copies name are cleared
unfoldable pub record_batch_checkpointed : String → List String → StepState → StepState
record_batch_checkpointed batch_id caller_object_ids state = record state {
  checkpoint_batches =
      checkpoint_found batch_id caller_object_ids (lookup batch_id state.checkpoint_batches)
        state.checkpoint_batches;
}

module _ (hostname : String) (str_int : ℤ → String) where
  -- `_component_value`, for a JSON parameter
  abbrev component_value : Option Json → Option String
  component_value (some (str s)) = if s == "" then none else some s
  component_value (some (int n)) = some (str_int n)
  component_value _ = none

  abbrev touch_value : (String → String) → Option String → JobContext → JobContext
  touch_value tag none ctx = ctx
  touch_value tag (some v) ctx = touch (tag v) ctx

  touch_keys : (String → String) → List String → Dict String Json → JobContext → JobContext
  touch_keys tag [] params ctx = ctx
  touch_keys tag (key ∷ keys) params ctx =
      touch_keys tag keys params (touch_value tag (component_value (lookup key params)) ctx)

  abbrev prefix : String → String → String
  prefix = String.◌++◌

  abbrev asset_tag : String → String
  asset_tag v = prefix "asset:" (if starts_with v "sha256:" then v else prefix "sha256:" v)

  abbrev dest_tag : String → String
  dest_tag v = prefix "dest:" (if starts_with v "/" then prefix hostname (prefix ":" v) else v)

  unfoldable pub touch_param_components : Dict String Json → JobContext → JobContext
  unfolding touch_keys touch lookup
  touch_param_components params ctx =
      let ctx₁ = touch_keys asset_tag ("asset_hash" ∷ "content_sha256" ∷ []) params ctx in
      let ctx₂ =
        touch_keys (prefix "tape:") ("tape" ∷ "tape_id" ∷ "tape_uuid" ∷ "media_id" ∷ []) params
          ctx₁ in
      let ctx₃ =
        touch_keys (prefix "drive:") ("drive" ∷ "drive_id" ∷ "drive_element_address" ∷ []) params
          ctx₂ in
      let ctx₄ =
        touch_keys (prefix "library:") ("library" ∷ "library_id" ∷ "library_uuid" ∷ []) params
          ctx₃ in
      let ctx₅ =
        touch_keys (prefix "backend:") ("backend" ∷ "backend_name" ∷ "target_backend" ∷ []) params
          ctx₄ in
      touch_keys dest_tag ("dest_path" ∷ "destination" ∷ "output_path" ∷ []) params ctx₅

  unfoldable pub job_context : Resources → Job → JobContext
  unfolding touch touch_param_components
  job_context granted job = touch_param_components job.params (
      touch (prefix "job:" job.kind) (record {
        granted_leases = granted;
        observations = [];
        components = [];
        component_parents = [];
      }))

unfoldable pub attempt_detail : Job → JobContext → AttemptDetail
attempt_detail job ctx = record {
  step_state = job.step_state;
  components = ctx.components;
  observations = ctx.observations;
  component_parents = ctx.component_parents;
}
