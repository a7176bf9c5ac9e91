-- ===== src/Jobs/Conditions/Projecting.antt =====
-- Attempt outcomes and reopening of a condition (`record_condition`, `reopen_condition` of
-- src/sutradhara/jobs/reconcilers/conditions.py).
use sutradhara.Prelude.{
  ℕ, ◌+◌, ◌-◌, ◌*◌, ◌^◌, String, Bool, not, ◌&&◌, ◌||◌, Option, none, some, List, [], ◌∷◌, ◌++◌,
  map, filter, any, leb, if◌then◌else◌, ◌==◌, nat_eq, string_eq, Result, ok, err, ◌>>=◌,
}
use sutradhara.Jobs.Config.{Overflow, default_max_backoff_seconds, jittered_backoff_seconds}
use sutradhara.Jobs.Model.{
  JobAttempt, Phase, open', backoff, blocked, ReconciliationCondition, ConditionComponent,
  is_succeeded,
}
use sutradhara.Jobs.Conditions.Observing.{
  default_backoff_seconds, default_backoff_give_up_attempts, is_blocked, Conditions, ConditionError,
  get_condition, save, no_condition, float_overflow, bad_condition,
}

-- `_link_attempt`
unfoldable pub link_attempt : Option JobAttempt → ReconciliationCondition → ReconciliationCondition
link_attempt none row = row
link_attempt (some attempt) row = record row {
  last_attempt_id = some attempt.id;
  last_attempt_at = some attempt.finished_at;
}

unfoldable pub set_blocked_tool :
    Option (String × String) → ReconciliationCondition → ReconciliationCondition
set_blocked_tool none row = record row { blocked_tool_name = none; blocked_tool_version = none }
set_blocked_tool (some (name, version)) row = record row {
  blocked_tool_name = some name;
  blocked_tool_version = some version;
}

abbrev pub attempt_components : Option JobAttempt → List String
attempt_components none = []
attempt_components (some attempt) = attempt.detail.components

-- `{component for component in raw_components if component}`
pub distinct : List String → List String
distinct [] = []
distinct (c ∷ cs) =
    let rest = distinct cs in if c == "" || any (λ d. c == d) rest then rest else c ∷ rest

unfoldable pub snapshot_blocked_components :
    ℕ → Option JobAttempt → List ConditionComponent → List ConditionComponent
unfolding distinct
snapshot_blocked_components id attempt components =
    filter (λ c. not (c.condition_id == id)) components
    ++ map (λ c. record { condition_id = id; component = c })
        (distinct (attempt_components attempt))

-- The arguments of `record_condition` behind the key.
pub record Projection : Type 0 where
  pub condition : Option Phase
  pub reason : Option String
  pub message : Option String
  pub next_eligible_at : Option ℕ
  pub blocked_tool : Option (String × String)
  pub auto_block : Bool

abbrev pub lift_overflow : Result Overflow ℕ → Result ConditionError ℕ
lift_overflow (ok n) = ok n
lift_overflow (err _) = err float_overflow

unfoldable pub default_backoff_due : (ℕ → ℕ → ℕ) → ℕ → ℕ → Result ConditionError ℕ
default_backoff_due draw now attempt_count = do
  delay ← lift_overflow (
      jittered_backoff_seconds draw (default_backoff_seconds * 2 ^ (attempt_count - 1))
        default_max_backoff_seconds)
  ok (now + delay)

-- `next_eligible_at or _default_backoff_due(now, next_count)`
abbrev pub due_or_default : (ℕ → ℕ → ℕ) → ℕ → ℕ → Option ℕ → Result ConditionError ℕ
due_or_default draw now next_count (some t) = ok t
due_or_default draw now next_count none = default_backoff_due draw now next_count

-- `reason or "give-up"`, where an empty text counts as none
abbrev pub reason_or_give_up : Option String → Option String
reason_or_give_up none = some "give-up"
reason_or_give_up (some r) = if r == "" then some "give-up" else some r

abbrev pub gives_up : Projection → ℕ → Bool
gives_up p next_count = p.auto_block && leb default_backoff_give_up_attempts next_count

abbrev pub mark_success : ℕ → Option JobAttempt → ReconciliationCondition → ReconciliationCondition
mark_success now none row = record row { updated_at = now }
mark_success now (some attempt) row =
    if is_succeeded attempt.outcome
    then record row { last_success_at = some attempt.finished_at; updated_at = now }
    else record row { updated_at = now }

abbrev pub block :
    ℕ → Option String → Projection → ReconciliationCondition → ReconciliationCondition
block now reason p row = set_blocked_tool p.blocked_tool (record row {
  condition = blocked;
  reason = reason;
  message = p.message;
  next_eligible_at = none;
  updated_at = now;
})

-- What `record_condition` makes of the row of its key.
unfoldable pub project :
    (ℕ → ℕ → ℕ)
    → ℕ
    → Projection
    → Option JobAttempt
    → ReconciliationCondition
    → Result ConditionError ReconciliationCondition
unfolding link_attempt set_blocked_tool
project draw now p attempt found =
    let row = link_attempt attempt found in
    let next_count = row.attempt_count + 1 in
    let counted = record row { attempt_count = next_count } in
    elim p.condition [
      | none ↦ ok (mark_success now attempt row)
      | some c ↦ elim c [
        | backoff ↦
            if gives_up p next_count
            then ok (block now (reason_or_give_up p.reason) p counted)
            else do
              due ← due_or_default draw now next_count p.next_eligible_at
              ok (
                  set_blocked_tool p.blocked_tool (record counted {
                    condition = backoff;
                    reason = p.reason;
                    message = p.message;
                    next_eligible_at = some due;
                    updated_at = now;
                  }))
        | blocked ↦ ok (block now p.reason p row)
        | _ ↦ err bad_condition
      ]
    ]

-- The snapshot is taken when a row becomes blocked, and not while it stays so.
abbrev pub snapshot_if_parked :
    Option JobAttempt
    → ReconciliationCondition
    → ReconciliationCondition
    → List ConditionComponent
    → List ConditionComponent
snapshot_if_parked attempt before after components =
    if is_blocked after.condition && not (is_blocked before.condition)
    then snapshot_blocked_components after.id attempt components
    else components

unfoldable pub project_found :
    (ℕ → ℕ → ℕ)
    → ℕ
    → Projection
    → Option JobAttempt
    → Conditions
    → Option ReconciliationCondition
    → Result ConditionError Conditions
project_found draw now p attempt t none = err no_condition
project_found draw now p attempt t (some row) = do
  row' ← project draw now p attempt row
  ok (record t {
    rows = save row' t.rows;
    components = snapshot_if_parked attempt row row' t.components;
  })

unfoldable pub record_condition :
    (ℕ → ℕ → ℕ)
    → ℕ
    → String
    → String
    → Projection
    → Option JobAttempt
    → Conditions
    → Result ConditionError Conditions
unfolding project_found
record_condition draw now domain target_key p attempt t =
    project_found draw now p attempt t (get_condition domain target_key t.rows)

-- The row that `reopen_condition` makes; its message is built from its arguments.
unfoldable pub reopen : ℕ → String → ReconciliationCondition → ReconciliationCondition
reopen now message row = record row {
  condition = open';
  reason = none;
  message = some message;
  blocked_tool_name = none;
  blocked_tool_version = none;
  attempt_count = 0;
  next_eligible_at = some now;
  updated_at = now;
}

unfoldable pub reopen_condition : ℕ → String → ReconciliationCondition → Conditions → Conditions
reopen_condition now message row t = record t { rows = save (reopen now message row) t.rows }
