-- ===== src/Retention/Examples/Shipped.antt =====
-- The chain, its off-box copy and the check, on concrete segments (src/sutradhara/retention_journal.py).
use sutradhara.Prelude.{
  ◌≡◌, ◌⊎◌, inl, inr, refl, true, Option, none, some, List, [], ◌∷◌, ◌++◌, String, ok, err, arith,
}
use sutradhara.Prelude.Dict.{lookup}
use sutradhara.Prelude.Ordering.{order_by}
use sutradhara.Retention.Rows.{verify_receipt_payload, payload_event_id}
use sutradhara.Retention.Journal.{
  validate_footer, read_footer, is_sha256, state_from_footer, JournalState, initial_state, Line,
  footer, Journal, JournalError, SegmentPath, genesis_hash,
}
use sutradhara.Retention.Publishing.{SourceEntry, new_segment, new_footer, seal_all}
use sutradhara.Retention.Walking.{Walk, check_segment, check_lines, check_entry, start_walk}
use sutradhara.Retention.Walking.Lines.{AllAcceptable, advance_all}
use sutradhara.Retention.Directory.{
  Listed, Progress, start, walk_segments, published_segments, published_state,
}
use sutradhara.Retention.Directory.Aligned.{
  Matching, entry_lines, journal_entries, check_segment-inv,
}
use sutradhara.Retention.Directory.Evidence.{Collision, heads_determine_entries}
use sutradhara.Retention.Export.{World, receipt_entry, is_ahead}
use sutradhara.Retention.Export.BySource.{of_source}
use sutradhara.Retention.Export.Publication.{next_state}
use sutradhara.Retention.Export.Complete.{Complete}
use sutradhara.Retention.Shipping.{
  Destination, Compare, Content, segment_bytes, anchor_bytes, anchor_of, anchor_of_state,
  segment_key, anchor_key, ship_segments,
}
use sutradhara.Retention.Shipping.Arriving.{Arrived, Waiting}
use sutradhara.Retention.Shipping.Resumption.{Run, ship_segments-resumes}
use sutradhara.Retention.Inspection.{Copy, JournalCheckResult, check_journal, projection_mismatches}
use sutradhara.Retention.Inspection.Sound.{Passed, check_journal-Passed}
use sutradhara.Retention.Inspection.Passing.{check_journal-passes}
use sutradhara.Retention.Examples.Exporting.{toy_hash, receipt_of}

abbrev first_entry : SourceEntry
first_entry = receipt_entry (receipt_of 1)

abbrev second_entry : SourceEntry
second_entry = receipt_entry (receipt_of 2)

-- The two entries in one file, and in two.
abbrev both : List SourceEntry
both = first_entry ∷ second_entry ∷ []

abbrev whole : List Listed
whole = (new_segment toy_hash both initial_state 5, new_footer toy_hash both initial_state 5) ∷ []

abbrev after_first : JournalState
after_first = next_state toy_hash (first_entry ∷ []) initial_state 5

abbrev in_parts : List Listed
in_parts =
    (
      new_segment toy_hash (first_entry ∷ []) initial_state 5,
      new_footer toy_hash (first_entry ∷ []) initial_state 5,
    )
    ∷ (
      new_segment toy_hash (second_entry ∷ []) after_first 6,
      new_footer toy_hash (second_entry ∷ []) after_first 6,
    )
    ∷ []

abbrev walked_to : Journal (Progress × Option (SegmentPath × JournalError)) → Progress
walked_to (ok (p, fault)) = p
walked_to (err e) = start

abbrev end_whole : Progress
end_whole = walked_to (walk_segments toy_hash whole start)

abbrev end_parts : Progress
end_parts = walked_to (walk_segments toy_hash in_parts start)

heads_determine_entries_example :
    (journal_entries whole ≡ journal_entries in_parts) ⊎ Collision toy_hash
unfolding walk_segments new_segment new_footer next_state check_segment check_lines check_entry
    payload_event_id lookup verify_receipt_payload validate_footer is_sha256 state_from_footer
heads_determine_entries_example =
    heads_determine_entries toy_hash whole in_parts end_whole end_parts refl refl refl refl

abbrev whole_lines : List Line
whole_lines = (new_segment toy_hash both initial_state 5).lines

abbrev begun : Walk
begun = start_walk toy_hash 1 genesis_hash initial_state.cursors

check_segment-inv_example :
    (xs : List SourceEntry) × (whole_lines
      ≡ seal_all toy_hash xs 1 genesis_hash
        ++ footer (new_footer toy_hash both initial_state 5) ∷ [])
    × AllAcceptable toy_hash xs begun
    × (advance_all toy_hash both begun ≡ advance_all toy_hash xs begun)
    × Matching (new_footer toy_hash both initial_state 5) 1 (advance_all toy_hash both begun)
unfolding walk_segments new_segment new_footer next_state check_segment check_lines check_entry
    payload_event_id lookup verify_receipt_payload validate_footer is_sha256 state_from_footer
    advance_all
check_segment-inv_example =
    check_segment-inv toy_hash whole_lines 1 genesis_hash initial_state.cursors
      (advance_all toy_hash both begun) (new_footer toy_hash both initial_state 5) refl

abbrev kind_of : Content → String
kind_of (segment_bytes ls) = "segment"
kind_of (anchor_bytes a) = "anchor"

abbrev pub by_kind : Compare
by_kind = record { size = λ c. 0; hash_file = kind_of; with_size = true }

abbrev whole_anchor : Content
whole_anchor = anchor_of_state (next_state toy_hash both initial_state 5)

abbrev pub empty_copy : Destination
empty_copy = record { objects = []; calls = 7 }

whole_waits :
    Waiting toy_hash empty_copy.objects
      (new_segment toy_hash both initial_state 5, new_footer toy_hash both initial_state 5)
unfolding walk_segments new_segment new_footer next_state check_segment check_lines check_entry
    payload_event_id lookup verify_receipt_payload validate_footer is_sha256 state_from_footer
    anchor_of
whole_waits = record { anchor = whole_anchor; is_anchor = refl; free = inl refl; no_head = refl }

ship_segments-resumes_example :
    Run toy_hash whole empty_copy (ship_segments toy_hash by_kind whole empty_copy)
unfolding walk_segments new_segment new_footer next_state check_segment check_lines check_entry
    payload_event_id lookup verify_receipt_payload validate_footer is_sha256 state_from_footer
ship_segments-resumes_example =
    ship_segments-resumes toy_hash by_kind 0 whole empty_copy (omega arith, tt)
      (inr (whole_waits, tt))

abbrev shelf : World
shelf = record {
  receipts = receipt_of 2 ∷ receipt_of 1 ∷ [];
  events = [];
  checkpoint = none;
  files = new_segment toy_hash both initial_state 5 ∷ [];
}

shelf-Complete : Complete toy_hash shelf
unfolding walk_segments new_segment new_footer next_state check_segment check_lines check_entry
    payload_event_id lookup verify_receipt_payload validate_footer is_sha256 state_from_footer
    published_segments read_footer published_state entry_lines journal_entries order_by of_source
    is_ahead
shelf-Complete = record {
  segments = whole;
  progress = end_whole;
  entries = both;
  listed = refl;
  walked = refl;
  stated = refl;
  sealed = refl;
  all_receipts = refl;
  all_events = refl;
  not_ahead = refl;
}

abbrev measured : Copy
measured = record {
  id = 3;
  backend_id = 1;
  integrity_hash = "d0";
  last_measured_digest = some "d0";
  last_measured_at = some 10;
}

abbrev whole_path : SegmentPath
whole_path = (new_segment toy_hash both initial_state 5).path

abbrev full_copy : Destination
full_copy = record {
  objects =
      (segment_key whole_path, segment_bytes whole_lines)
      ∷ (anchor_key whole_path, whole_anchor)
      ∷ [];
  calls = 2;
}

whole_shipped :
    Arrived toy_hash full_copy.objects
      (new_segment toy_hash both initial_state 5, new_footer toy_hash both initial_state 5)
unfolding walk_segments new_segment new_footer next_state check_segment check_lines check_entry
    payload_event_id lookup verify_receipt_payload validate_footer is_sha256 state_from_footer
    anchor_of
whole_shipped = record { anchor = whole_anchor; is_anchor = refl; bytes = refl; head = refl }

abbrev shelf_result : JournalCheckResult
shelf_result = record {
  is_ok = true;
  file_count = 1;
  entry_count = 2;
  state = next_state toy_hash both initial_state 5;
  offbox_compared = true;
  issues = [];
  mismatches = [];
}

shelf_passes : check_journal toy_hash shelf (measured ∷ []) (some full_copy) ≡ ok shelf_result
unfolding walk_segments new_segment new_footer next_state check_segment check_lines check_entry
    payload_event_id lookup verify_receipt_payload validate_footer is_sha256 state_from_footer
    shelf-Complete projection_mismatches
shelf_passes =
    check_journal-passes toy_hash shelf (measured ∷ []) full_copy shelf-Complete (omega arith)
      (whole_shipped, tt) (omega arith) refl

check_journal-Passed_example : Passed toy_hash shelf (measured ∷ []) full_copy shelf_result
check_journal-Passed_example =
    check_journal-Passed toy_hash shelf (measured ∷ []) full_copy shelf_result shelf_passes refl
