-- ===== src/Retention/Export.antt =====
-- The export of new receipt rows (`_export_locked` up to the shipping, `_new_source_entries`,
-- `_write_checkpoint` and `_checkpoint_ahead_issue` of src/sutradhara/retention_journal.py). The exporter
-- holds its process lock throughout. Each of its transactions commits by itself, so what it did before
-- an error stays; `crash` says that the hook between publication and checkpoint raises.
pub mod Cursor
pub mod BySource
pub mod Entries
pub mod Publication
pub mod Listing
pub mod Sound
pub mod Consistent
pub mod Outcome
pub mod Complete
pub mod Steps
pub mod Recovery
pub mod Drained
use sutradhara.Prelude.{
  ℕ, String, Bool, true, false, Option, none, some, List, [], ◌∷◌, ◌++◌, map, filter, ltb,
  if◌then◌else◌, length, Result, ok, err, ◌>>=◌,
}
use sutradhara.Prelude.Ordering.{order_by, past}
use sutradhara.Retention.Rows.{
  VerifyReceipt, RetentionEvent, verify_receipt, retention_event, verify_receipt_payload,
  retention_event_payload,
}
use sutradhara.Retention.Journal.{
  Cursors, JournalState, SegmentPath, Segment, HashJson, Journal, JournalError, read_footer,
  checkpoint_ahead, crashed, envelope_id_v1, hash_algorithm_sha256,
}
use sutradhara.Retention.Publishing.{SourceEntry, publish_segment}
use sutradhara.Retention.Directory.{Listed, published_segments, published_state}

-- The row of `retention_journal_checkpoint`.
pub record Checkpoint : Type 0 where
  pub envelope_id : String
  pub hash_algorithm_id : String
  pub global_sequence : ℕ
  pub head_hash : String
  pub cursors : Cursors
  pub published_filename : SegmentPath
  pub published_at : ℕ

-- The tables that the exporter uses, and the directory of the journal. A table is the list of its
-- rows, the newest first.
pub record World : Type 0 where
  pub receipts : List VerifyReceipt
  pub events : List RetentionEvent
  pub checkpoint : Option Checkpoint
  pub files : List Segment

abbrev pub receipt_key : VerifyReceipt → ℕ
receipt_key r = r.event_id

abbrev pub event_key : RetentionEvent → ℕ
event_key e = e.event_id

abbrev pub receipt_entry : VerifyReceipt → SourceEntry
receipt_entry row = record {
  source = verify_receipt;
  event_id = row.event_id;
  payload = verify_receipt_payload row;
}

abbrev pub event_entry : RetentionEvent → SourceEntry
event_entry row = record {
  source = retention_event;
  event_id = row.event_id;
  payload = retention_event_payload row;
}

unfoldable pub new_source_entries :
    List VerifyReceipt → List RetentionEvent → Cursors → List SourceEntry
unfolding order_by
new_source_entries receipts events cursors =
    map receipt_entry (order_by receipt_key (filter (past receipt_key cursors.receipts) receipts))
    ++ map event_entry (order_by event_key (filter (past event_key cursors.events) events))

-- The row is written whole, whether it is there or not.
unfoldable pub write_checkpoint : JournalState → World → World
write_checkpoint s w = elim s.published_filename [
  | none ↦ w
  | some path ↦ elim s.published_at [
    | none ↦ w
    | some t ↦ record w {
      checkpoint = some (record {
        envelope_id = envelope_id_v1;
        hash_algorithm_id = hash_algorithm_sha256;
        global_sequence = s.global_sequence;
        head_hash = s.head_hash;
        cursors = s.cursors;
        published_filename = path;
        published_at = t;
      });
    }
  ]
]

-- `_checkpoint_ahead_issue`
unfoldable pub is_ahead : Option Checkpoint → JournalState → Bool
is_ahead none s = false
is_ahead (some row) s = ltb s.global_sequence row.global_sequence

-- What an export has published: its entries, and the segments and the state after it.
pub record Published : Type 0 where
  pub entry_count : ℕ
  pub segments : List Listed
  pub state : JournalState

module _ (hash_json : HashJson) where
  -- `segments.append((published_path, _read_footer(published_path)))`, the hook and the checkpoint
  unfoldable pub conclude_export :
      List SourceEntry
      → List Listed
      → Bool
      → Segment
      → JournalState
      → World
      → World × Journal Published
  unfolding write_checkpoint
  conclude_export entries segments crash final state w = elim (read_footer hash_json final) [
    | err e ↦ (w, err e)
    | ok footer ↦ if crash then (w, err crashed) else (
      write_checkpoint state w,
      ok (record {
        entry_count = length entries;
        segments = segments ++ (final, footer) ∷ [];
        state = state;
      }),
    )
  ]

  unfoldable pub publish_entries :
      List SourceEntry → List Listed → JournalState → ℕ → Bool → World → World × Journal Published
  unfolding conclude_export
  publish_entries [] segments state now crash w =
      (w, ok (record { entry_count = 0; segments = segments; state = state }))
  publish_entries (x ∷ xs) segments state now crash w =
      elim (publish_segment hash_json w.files (x ∷ xs) state now) [
        | err e ↦ (w, err e)
        | ok (final, state') ↦
            conclude_export (x ∷ xs) segments crash final state'
              (record w { files = w.files ++ final ∷ [] })
      ]

  -- Behind `_published_segments`: the checkpoint is compared, written again, and new rows are taken.
  unfoldable pub export_from :
      List Listed → JournalState → ℕ → Bool → World → World × Journal Published
  unfolding is_ahead write_checkpoint new_source_entries publish_entries
  export_from segments state now crash w =
      if is_ahead w.checkpoint state
      then (w, err checkpoint_ahead)
      else publish_entries (new_source_entries w.receipts w.events state.cursors) segments state now
          crash (write_checkpoint state w)

  unfoldable pub published : List Segment → Journal (List Listed × JournalState)
  published files = do
    segments ← published_segments hash_json files
    state ← published_state hash_json segments
    ok (segments, state)

  unfoldable pub export_segments : ℕ → Bool → World → World × Journal Published
  unfolding published export_from
  export_segments now crash w = elim (published w.files) [
    | err e ↦ (w, err e)
    | ok (segments, state) ↦ export_from segments state now crash w
  ]
