-- ===== src/Retention/Status.antt =====
-- The lag of the export and its alarms (`journal_operational_status`, `_stale_threshold`,
-- `project_journal_alarm` and `refresh_staleness_alarm` of src/sutradhara/retention_journal.py).
pub mod Pending
pub mod Alarms
use sutradhara.Prelude.{
  ℕ, zero, suc, ◌+◌, ◌-◌, ◌/◌, ◌≡◌, refl, Bool, true, false, ◌&&◌, Option, none, some, List, [],
  ◌∷◌, map, filter, any, ◌||◌, ◌∙◌, sym, Bool-cases, inl, inr, length, length-append, min, ltb,
  if◌then◌else◌, String, arith, Result, ok, err, ◌>>=◌,
}
use sutradhara.Prelude.Int.{ℤ, pos, negsuc}
use sutradhara.Prelude.Ordering.{order_by, insert_by, past}
use sutradhara.Jobs.Conditions.{
  Conditions, get_condition, save, record_observation, observed_present,
}
use sutradhara.Jobs.Model.{open'}
use sutradhara.Retention.Journal.{JournalState, HashJson, Journal}
use sutradhara.Retention.Export.{
  World, receipt_key, event_key, receipt_entry, event_entry, new_source_entries, published,
}

abbrev pub default_stale_seconds : ℕ
default_stale_seconds = 7200

-- `SUTRADHARA_RETENTION_JOURNAL_STALE_SECONDS`, as `int` reads it
pub data Setting : Type 0 where
  unset not_an_integer : Setting
  seconds : ℤ → Setting

pub data StatusError : Type 0 where
  bad_setting threshold_not_positive : StatusError

above_zero : ℤ → Result StatusError ℕ
above_zero (pos zero) = err threshold_not_positive
above_zero (pos (suc n)) = ok (suc n)
above_zero (negsuc n) = err threshold_not_positive

unfoldable pub stale_threshold : Option ℤ → Setting → Result StatusError ℕ
unfolding above_zero
stale_threshold (some v) raw = above_zero v
stale_threshold none unset = above_zero (pos default_stale_seconds)
stale_threshold none not_an_integer = err bad_setting
stale_threshold none (seconds v) = above_zero v

pub record JournalOperationalStatus : Type 0 where
  pub state : JournalState
  pub pending_entries : ℕ
  pub oldest_pending_at : Option ℕ
  pub stale_seconds : ℕ
  pub threshold_seconds : ℕ
  pub stale : Bool

-- `min` of a column, null where there is no row
module _ {A : Type 0} (time : A → ℕ) where
  unfoldable pub earliest : List A → Option ℕ
  earliest [] = none
  earliest (x ∷ xs) =
      let rest = earliest xs in elim rest [ none ↦ some (time x) | some t ↦ some (min (time x) t) ]

abbrev pub earlier_of : Option ℕ → Option ℕ → Option ℕ
earlier_of none b = b
earlier_of (some a) none = some a
earlier_of (some a) (some b) = some (min a b)

-- Seconds of an instant in microseconds; a time in the future has an age of 0.
abbrev pub age : Option ℕ → ℕ → ℕ
age none now = 0
age (some t) now = (now - t) / 1000000

abbrev pub is_some : Option ℕ → Bool
is_some none = false
is_some (some t) = true

unfoldable pub status_of : JournalState → ℕ → ℕ → World → JournalOperationalStatus
unfolding earliest
status_of state threshold now w =
    let rs = filter (past receipt_key state.cursors.receipts) w.receipts in
    let es = filter (past event_key state.cursors.events) w.events in
    let oldest = earlier_of (earliest (λ r. r.at_time) rs) (earliest (λ e. e.at_time) es) in
    record {
      state = state;
      pending_entries = length rs + length es;
      oldest_pending_at = oldest;
      stale_seconds = age oldest now;
      threshold_seconds = threshold;
      stale = is_some oldest && ltb threshold (age oldest now);
    }

unfoldable pub journal_operational_status :
    HashJson → ℕ → ℕ → World → Journal JournalOperationalStatus
unfolding status_of published
journal_operational_status hash_json threshold now w = do
  (segments, state) ← published hash_json w.files
  ok (status_of state threshold now w)

abbrev pub alarm_domain : String
alarm_domain = "retention_journal_alarm"

-- `row.condition = CONDITION_OPEN` and the reason and the message, of an active alarm
unfoldable pub raise_alarm : String → String → String → Conditions → Conditions
raise_alarm target_key reason message t = elim (get_condition alarm_domain target_key t.rows) [
  | none ↦ t
  | some row ↦ record t {
    rows =
        save (record row { condition = open'; reason = some reason; message = some message })
          t.rows;
  }
]

unfoldable pub project_journal_alarm : ℕ → String → Bool → String → String → Conditions → Conditions
unfolding raise_alarm
project_journal_alarm now target_key active reason message t =
    let t' =
      record_observation now alarm_domain target_key active
        (if active then "missing" else observed_present) none none t in
    if active then raise_alarm target_key reason message t' else t'

-- The message of the alarm is a parameter of the model: it prints the status. The observation has a
-- time of its own, the first.
unfoldable pub refresh_staleness_alarm :
    HashJson
    → (JournalOperationalStatus → String)
    → ℕ
    → ℕ
    → ℕ
    → World
    → Conditions
    → Journal (JournalOperationalStatus × Conditions)
unfolding project_journal_alarm journal_operational_status
refresh_staleness_alarm hash_json message clock threshold now w t = do
  status ← journal_operational_status hash_json threshold now w
  ok (
    status,
    project_journal_alarm clock "export-stale" status.stale "export-stale" (message status) t,
  )
