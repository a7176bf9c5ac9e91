-- ===== src/Retention/Rows.antt =====
-- The receipt tables of src/sutradhara/catalog/models.py that the journal exports, and the payloads
-- that src/sutradhara/retention_journal.py writes for their rows. A digest is its hexadecimal text, and
-- an instant is a number of microseconds.
use native.Mathlib.Decide.{ℕ_discrete}
use sutradhara.Prelude.{ℕ, String, Bool, Option, none, some, [], ◌∷◌, string_eq, string_discrete}
use sutradhara.Prelude.Dict.{Dict, lookup}

-- The keys of `SOURCE_RANK`, and the ranks.
pub data Source : Type 0 where
  verify_receipt retention_event : Source

abbrev pub source_rank : Source → ℕ
source_rank verify_receipt = 0
source_rank retention_event = 1

abbrev pub source_name : Source → String
source_name verify_receipt = "verify_receipt"
source_name retention_event = "retention_event"

-- A value of a payload. `instant` is the text that `_isoformat` prints for it, and `nested` an array,
-- an object or another number, by its canonical text.
pub data Value : Type 0 where
  null : Value
  boolean : Bool → Value
  int instant : ℕ → Value
  str nested : String → Value

abbrev pub or_null : Option Value → Value
or_null none = null
or_null (some v) = v

abbrev pub opt_str : Option String → Value
opt_str none = null
opt_str (some s) = str s

abbrev pub opt_int : Option ℕ → Value
opt_int none = null
opt_int (some n) = int n

abbrev pub opt_source : Option Source → Value
opt_source none = null
opt_source (some s) = str (source_name s)

abbrev pub Payload : Type 0
Payload = Dict String Value

pub record VerifyReceipt : Type 0 where
  pub event_id : ℕ
  pub copy_id : ℕ
  pub backend_id : ℕ
  pub expected_digest : String
  pub measured_digest : Option String
  pub backend_ok : Bool
  pub failure_kind : Option String
  pub failure_detail : Option String
  pub source : String
  pub execution_id : String
  pub producer_process : String
  pub actor : Option String
  pub at_time : ℕ

-- `detail` is the canonical text of the JSON column, or none for null.
pub record RetentionEvent : Type 0 where
  pub event_id : ℕ
  pub intake_id : Option String
  pub subject_type : String
  pub subject_id : String
  pub action : String
  pub operation_id : String
  pub actor : String
  pub at_time : ℕ
  pub detail : Option String
  pub supersedes_source : Option Source
  pub supersedes_event_id : Option ℕ

unfoldable pub verify_receipt_payload : VerifyReceipt → Payload
verify_receipt_payload row =
    ("event_id", int row.event_id)
    ∷ ("copy_id", int row.copy_id)
    ∷ ("backend_id", int row.backend_id)
    ∷ ("expected_digest", str row.expected_digest)
    ∷ ("measured_digest", opt_str row.measured_digest)
    ∷ ("backend_ok", boolean row.backend_ok)
    ∷ ("failure_kind", opt_str row.failure_kind)
    ∷ ("failure_detail", opt_str row.failure_detail)
    ∷ ("source", str row.source)
    ∷ ("execution_id", str row.execution_id)
    ∷ ("producer_process", str row.producer_process)
    ∷ ("actor", opt_str row.actor)
    ∷ ("at", instant row.at_time)
    ∷ []

abbrev nested_or_null : Option String → Value
nested_or_null none = null
nested_or_null (some t) = nested t

unfoldable pub retention_event_payload : RetentionEvent → Payload
retention_event_payload row =
    ("event_id", int row.event_id)
    ∷ ("intake_id", opt_str row.intake_id)
    ∷ ("subject_type", str row.subject_type)
    ∷ ("subject_id", str row.subject_id)
    ∷ ("action", str row.action)
    ∷ ("operation_id", str row.operation_id)
    ∷ ("actor", str row.actor)
    ∷ ("at", instant row.at_time)
    ∷ ("detail", nested_or_null row.detail)
    ∷ ("supersedes_source", opt_source row.supersedes_source)
    ∷ ("supersedes_event_id", opt_int row.supersedes_event_id)
    ∷ []

-- `payload.get("event_id")` where it is an integer
abbrev as_int : Option Value → Option ℕ
as_int none = none
as_int (some null) = none
as_int (some (boolean b)) = none
as_int (some (int n)) = some n
as_int (some (instant t)) = none
as_int (some (str s)) = none
as_int (some (nested t)) = none

unfoldable pub payload_event_id : Payload → Option ℕ
payload_event_id p = as_int (lookup "event_id" p)

pub Value-discrete : Discrete Value
Value-discrete = hlevel (ℕ_discrete, string_discrete)

pub Payload-discrete : Discrete Payload
Payload-discrete = hlevel (Value-discrete, string_discrete)
