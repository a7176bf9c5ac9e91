-- ===== src/Retention/Examples/Amending.antt =====
-- A correction and the status, on concrete rows (src/sutradhara/retention_journal.py).
use sutradhara.Prelude.{
  ℕ, ◌≡◌, refl, ◌&&◌, none, [], ◌∷◌, length, String, if◌then◌else◌, ◌==◌, string_eq, ok, err, arith,
  any, ◌||◌,
}
use sutradhara.Prelude.Ordering.{Below, past}
use sutradhara.Retention.Rows.{retention_event}
use sutradhara.Retention.Journal.{initial_state}
use sutradhara.Retention.Export.{World, event_key, receipt_key, new_source_entries}
use sutradhara.Retention.Corrections.{
  integrity, event_ok, find_event, next_event_id, correction_row, record_journal_correction,
  record_journal_correction-exact,
}
use sutradhara.Retention.Status.{status_of}
use sutradhara.Retention.Status.Pending.{status_of-exact, overdue}
use sutradhara.Retention.Examples.Exporting.{receipt_of, media_event}

abbrev catalog : World
catalog = record {
  receipts = receipt_of 2 ∷ receipt_of 1 ∷ [];
  events = media_event ∷ [];
  checkpoint = none;
  files = [];
}

abbrev text_of : ℕ → String
text_of n = "1"

abbrev json_of : String → String
json_of s = s

record_journal_correction-exact_example :
    let row =
      correction_row text_of json_of retention_event 1 "op" "wrong tape" "u" 20
        (next_event_id catalog.events)
        (media_event.subject_type, media_event.subject_id, media_event.intake_id) in
    Below event_key row.event_id catalog.events
    × (record_journal_correction text_of json_of retention_event 1 "op" "wrong tape" "u" 20 catalog
        ≡ (if media_event.subject_type == "batch"
            then err integrity
            else ok (record catalog { events = row ∷ catalog.events })))
unfolding event_ok find_event
record_journal_correction-exact_example =
    record_journal_correction-exact text_of json_of media_event 1 "op" "wrong tape" "u" 20 catalog
      refl refl (omega arith) refl refl

status_of-exact_example :
    let status = status_of initial_state 7200 9000000000 catalog in
    (status.pending_entries
      ≡ length (new_source_entries catalog.receipts catalog.events initial_state.cursors))
    × (status.stale
        ≡ any (λ r. past receipt_key 0 r && overdue 7200 9000000000 r.at_time) catalog.receipts
          || any (λ e. past event_key 0 e && overdue 7200 9000000000 e.at_time) catalog.events)
status_of-exact_example = status_of-exact initial_state 7200 9000000000 catalog
