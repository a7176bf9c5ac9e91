-- ===== src/Jobs/Conditions/Observing.antt =====
-- The condition table, its rows, and `record_observation`
-- (src/sutradhara/jobs/reconcilers/conditions.py).
use sutradhara.Prelude.{
  ℕ, ◌+◌, String, Bool, true, false, not, ◌&&◌, Option, none, some, List, [], ◌∷◌, ◌++◌,
  if◌then◌else◌, ◌==◌, nat_eq, string_eq,
}
use sutradhara.Jobs.Model.{
  Phase, open', backoff, blocked, suppressed, satisfied, ReconciliationCondition,
  ConditionComponent,
}

abbrev pub observed_present : String
observed_present = "present"

abbrev pub default_backoff_seconds : ℕ
default_backoff_seconds = 60

abbrev pub default_backoff_give_up_attempts : ℕ
default_backoff_give_up_attempts = 3

-- `HELD_CONDITIONS` and `WORKABLE_CONDITIONS`
abbrev pub is_held : Phase → Bool
is_held backoff = true
is_held blocked = true
is_held suppressed = true
is_held _ = false

abbrev pub is_workable : Phase → Bool
is_workable open' = true
is_workable backoff = true
is_workable _ = false

abbrev pub is_suppressed : Phase → Bool
is_suppressed suppressed = true
is_suppressed _ = false

abbrev pub is_blocked : Phase → Bool
is_blocked blocked = true
is_blocked _ = false

-- The two tables, and the id that the database gives to the next condition row.
pub record Conditions : Type 0 where
  pub rows : List ReconciliationCondition
  pub components : List ConditionComponent
  pub next_id : ℕ

pub data ConditionError : Type 0 where
  no_condition bad_condition : ConditionError
  float_overflow : ConditionError

unfoldable pub has_key : String → String → ReconciliationCondition → Bool
has_key domain target_key row = row.domain == domain && row.target_key == target_key

unfoldable pub get_condition :
    String → String → List ReconciliationCondition → Option ReconciliationCondition
get_condition domain target_key [] = none
get_condition domain target_key (row ∷ rows) =
    let rest = get_condition domain target_key rows in
    if has_key domain target_key row then some row else rest

-- The flush of one changed row.
unfoldable pub save :
    ReconciliationCondition → List ReconciliationCondition → List ReconciliationCondition
save row [] = []
save row (r ∷ rows) = (if r.id == row.id then row else r) ∷ save row rows

abbrev pub or_now : Option ℕ → ℕ → ℕ
or_now none now = now
or_now (some t) now = t

unfoldable pub mark_satisfied : String → ℕ → ReconciliationCondition → ReconciliationCondition
mark_satisfied observed_state now row = record row {
  observed_state = observed_state;
  condition = satisfied;
  reason = none;
  message = none;
  attempt_count = 0;
  next_eligible_at = none;
  blocked_tool_name = none;
  blocked_tool_version = none;
  updated_at = now;
}

-- What `record_observation` makes of the row that it found or created.
unfoldable pub observe :
    ℕ
    → Bool
    → String
    → Option String
    → Option String
    → ReconciliationCondition
    → ReconciliationCondition
unfolding mark_satisfied
observe now desired observed_state reason message row =
    if not desired
    then mark_satisfied observed_state now row
    else if observed_state == observed_present
    then (if is_suppressed row.condition
        then record row { observed_state = observed_state; updated_at = now }
        else mark_satisfied observed_state now row)
    else if is_held row.condition
    then row
    else record row {
      observed_state = observed_state;
      condition = open';
      reason = reason;
      message = message;
      next_eligible_at = some (or_now row.next_eligible_at now);
      updated_at = now;
    }

unfoldable pub new_row : ℕ → ℕ → String → String → String → ReconciliationCondition
new_row id now domain target_key observed_state = record {
  id = id;
  domain = domain;
  target_key = target_key;
  observed_state = observed_state;
  condition = satisfied;
  reason = none;
  message = none;
  attempt_count = 0;
  next_eligible_at = none;
  blocked_tool_name = none;
  blocked_tool_version = none;
  last_attempt_id = none;
  last_attempt_at = none;
  last_success_at = none;
  updated_at = now;
}

unfoldable pub observe_found :
    ℕ
    → String
    → String
    → Bool
    → String
    → Option String
    → Option String
    → Option ReconciliationCondition
    → Conditions
    → Conditions
observe_found now domain target_key desired observed_state reason message (some row) t = record t {
  rows = save (observe now desired observed_state reason message row) t.rows;
}
observe_found now domain target_key desired observed_state reason message none t =
    let row = new_row t.next_id now domain target_key observed_state in
    record t {
      rows = t.rows ++ observe now desired observed_state reason message row ∷ [];
      next_id = t.next_id + 1;
    }

unfoldable pub record_observation :
    ℕ → String → String → Bool → String → Option String → Option String → Conditions → Conditions
unfolding observe_found
record_observation now domain target_key desired observed_state reason message t =
    observe_found now domain target_key desired observed_state reason message
      (get_condition domain target_key t.rows) t
