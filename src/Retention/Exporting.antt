-- ===== src/Retention/Exporting.antt =====
-- An export with its shipping and its alarms (`export_journal` and the end of `_export_locked` of
-- src/sutradhara/retention_journal.py). The process lock is held by another exporter or not; every
-- observation of an alarm takes the time of one clock, and `text` prints an error.
pub mod Attempts
pub mod Notices
pub mod Reported
use sutradhara.Prelude.{
  ℕ, Bool, true, false, not, Option, none, some, List, [], ◌∷◌, ◌==◌, String, nat_eq, string_eq,
  if◌then◌else◌, Result, ok, err,
}
use sutradhara.Jobs.Conditions.{Conditions}
use sutradhara.Retention.Journal.{JournalState, HashJson, JournalError, SegmentPath}
use sutradhara.Retention.Directory.{Listed}
use sutradhara.Retention.Export.{World, Published, export_segments}
use sutradhara.Retention.Shipping.{Destination, Compare, ship_segments}
use sutradhara.Retention.Status.{
  JournalOperationalStatus, Setting, StatusError, stale_threshold, project_journal_alarm,
  refresh_staleness_alarm,
}

pub data ExportError : Type 0 where
  already_running : ExportError
  raised : JournalError → ExportError
  bad_threshold : StatusError → ExportError

pub record JournalExportResult : Type 0 where
  pub published : Bool
  pub entry_count : ℕ
  pub segment : Option SegmentPath
  pub state : JournalState
  pub shipped_segments : ℕ
  pub shipping_error : Option String

-- What an export reads and writes: the tables and the directory, the conditions, the destination.
pub record Site : Type 0 where
  pub world : World
  pub conditions : Conditions
  pub destination : Option Destination

-- What an attempt to ship gives: the destination, the count and the error.
pub record Shipment : Type 0 where
  pub destination : Option Destination
  pub shipped : ℕ
  pub error : Option String

abbrev pub is_failed : Option String → Bool
is_failed none = false
is_failed (some s) = true

-- `shipping_error or "retention journal DR shipping succeeded"`
abbrev pub shipping_message : Option String → String
shipping_message none = "retention journal DR shipping succeeded"
shipping_message (some s) = if s == "" then "retention journal DR shipping succeeded" else s

-- The new segment is the one that the state of a publication names.
unfoldable pub report : Published → Shipment → JournalExportResult
report p s =
    let is_new = not (p.entry_count == 0) in
    record {
      published = is_new;
      entry_count = p.entry_count;
      segment = if is_new then p.state.published_filename else none;
      state = p.state;
      shipped_segments = s.shipped;
      shipping_error = s.error;
    }

-- The alarms of a published export, without the one of a stale export.
unfoldable pub project_export : ℕ → Shipment → Conditions → Conditions
project_export clock s t =
    project_journal_alarm clock "shipping-failed" (is_failed s.error) "shipping-failed"
      (shipping_message s.error)
      (project_journal_alarm clock "export-failed" false "export-failed"
        "retention journal export succeeded" t)

module _ (hash_json : HashJson) (c : Compare) (text : JournalError → String) where
  unfoldable pub attempt_shipping : List Listed → Option Destination → Shipment
  attempt_shipping [] d = record { destination = d; shipped = 0; error = none }
  attempt_shipping (l ∷ ls) none = record {
    destination = none;
    shipped = 0;
    error = some "no ssh_disk DR target is configured";
  }
  attempt_shipping (l ∷ ls) (some d) =
      let (d', r) = ship_segments hash_json c (l ∷ ls) d in
      elim r [
        | ok n ↦ record { destination = some d'; shipped = n; error = none }
        | err e ↦ record { destination = some d'; shipped = 0; error = some (text e) }
      ]

module _ (hash_json : HashJson) (c : Compare) (text : JournalError → String)
    (message : JournalOperationalStatus → String) (setting : Setting) (clock now : ℕ) where
  -- `refresh_staleness_alarm` reads the threshold first.
  unfoldable pub refresh_at_end : World → Conditions → Result ExportError Conditions
  refresh_at_end w t = elim (stale_threshold none setting) [
    | err e ↦ err (bad_threshold e)
    | ok threshold ↦ elim (refresh_staleness_alarm hash_json message clock threshold now w t) [
      | err e ↦ err (raised e)
      | ok (status, t') ↦ ok t'
    ]
  ]

  -- Shipping, the alarms and the result of an export that has published.
  unfoldable pub report_export :
      Published
      → World
      → Conditions
      → Option Destination
      → Site × Result ExportError JournalExportResult
  unfolding attempt_shipping project_export refresh_at_end report
  report_export p w t d =
      let s = attempt_shipping hash_json c text p.segments d in
      let t' = project_export clock s t in
      elim (refresh_at_end w t') [
        | err e ↦ (record { world = w; conditions = t'; destination = s.destination }, err e)
        | ok t'' ↦
            (record { world = w; conditions = t''; destination = s.destination }, ok (report p s))
      ]

  -- `_export_locked`; `crash` says that the hook raises.
  unfoldable pub export_locked : Bool → Site → Site × Result ExportError JournalExportResult
  unfolding report_export
  export_locked crash site =
      let (w, r) = export_segments hash_json now crash site.world in
      elim r [
        | err e ↦ (record site { world = w }, err (raised e))
        | ok p ↦ report_export p w site.conditions site.destination
      ]

  unfoldable pub export_journal : Bool → Bool → Site → Site × Result ExportError JournalExportResult
  unfolding export_locked
  export_journal is_held crash site =
      let exported = export_locked crash site in
      if is_held then (site, err already_running) else exported
