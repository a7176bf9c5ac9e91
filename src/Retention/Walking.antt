-- ===== src/Retention/Walking.antt =====
-- The walk over published segments (`_check_segment`, the first loop of `check_journal` and
-- `_published_segments` of src/sutradhara/retention_journal.py).
pub mod Checked
pub mod Lines
use sutradhara.Prelude.{
  ℕ, suc, ◌-◌, ◌+◌, Bool, true, false, not, ◌&&◌, ◌||◌, Option, none, some, List, [], ◌∷◌, leb, ltb,
  if◌then◌else◌, ◌==◌, String, nat_eq, string_eq, Result, ok, err, ◌>>=◌, ◌>>◌, guard, or_raise,
}
use sutradhara.Retention.Rows.{Source, source_rank, Payload, payload_event_id}
use sutradhara.Retention.Journal.{
  Cursors, cursor_of, set_cursor, JournalState, initial_state, Link, Envelope, Footer, SegmentPath,
  Segment, Line, blank, not_json, not_an_object, unknown_kind, entry, footer, HashJson,
  payload_document, link_document, Journal, JournalError, holds, envelope_id_v1,
  hash_algorithm_sha256, genesis_hash, validate_footer, state_from_footer, read_footer, no_footer,
  bad_cursors, not_an_integer, filename_footer_mismatch, range_discontinuity, invalid_json,
  envelope_not_an_object, duplicate_footer, entry_after_footer, unknown_envelope_kind,
  sequence_discontinuity, unknown_source, order_violation, non_increasing_cursor,
  payload_not_an_object, payload_event_id_differs, entry_checksum_mismatch, previous_hash_mismatch,
  entry_hash_mismatch, footer_does_not_match, bad_envelope_id, bad_hash_algorithm,
}

-- The variables of the loop over the entries.
pub record Walk : Type 0 where
  pub expected_sequence : ℕ
  pub expected_hash : String
  pub cursors : Cursors
  pub previous_order : Option (ℕ × ℕ)
  pub entry_count : ℕ

-- `order <= previous_order` of tuples
abbrev pub order_le : ℕ × ℕ → ℕ × ℕ → Bool
order_le (r, n) (r', n') = ltb r r' || (r == r' && leb n n')

abbrev pub is_later : ℕ × ℕ → Option (ℕ × ℕ) → Bool
is_later o none = true
is_later o (some p) = not (order_le o p)

-- `link`, rebuilt from the fields that were read
abbrev pub rebuilt_link : ℕ → Source → ℕ → String → String → Link
rebuilt_link sequence source event_id checksum expected_hash = record {
  envelope_id = envelope_id_v1;
  hash_algorithm_id = hash_algorithm_sha256;
  sequence = sequence;
  source = source;
  event_id = event_id;
  checksum = checksum;
  prev_hash = expected_hash;
}

module _ (hash_json : HashJson) where
  -- The body of the loop for an entry.
  unfoldable pub check_entry : Envelope → Walk → Journal Walk
  check_entry e w = do
    guard (holds e.envelope_id envelope_id_v1) bad_envelope_id
    guard (holds e.hash_algorithm_id hash_algorithm_sha256) bad_hash_algorithm
    sequence ← or_raise e.sequence not_an_integer
    guard (sequence == w.expected_sequence) sequence_discontinuity
    source ← or_raise e.source unknown_source
    event_id ← or_raise e.event_id not_an_integer
    guard (is_later (source_rank source, event_id) w.previous_order) order_violation
    guard (not (leb event_id (cursor_of source w.cursors))) non_increasing_cursor
    payload ← or_raise e.payload payload_not_an_object
    guard (holds (payload_event_id payload) event_id) payload_event_id_differs
    checksum ← or_raise e.checksum entry_checksum_mismatch
    guard (checksum == hash_json (payload_document payload)) entry_checksum_mismatch
    guard (holds e.prev_hash w.expected_hash) previous_hash_mismatch
    entry_hash ← or_raise e.entry_hash entry_hash_mismatch
    let link = rebuilt_link sequence source event_id checksum w.expected_hash
    guard (entry_hash == hash_json (link_document link)) entry_hash_mismatch
    ok (record {
      expected_sequence = suc w.expected_sequence;
      expected_hash = entry_hash;
      cursors = set_cursor source event_id w.cursors;
      previous_order = some (source_rank source, event_id);
      entry_count = suc w.entry_count;
    })

  abbrev is_none : Option Footer → Bool
  is_none none = true
  is_none (some f) = false

  -- The body of the loop: a line that is not a footer must not stand behind one.
  unfoldable pub check_line : Line → Walk → Option Footer → Journal (Walk × Option Footer)
  check_line blank w f = err invalid_json
  check_line not_json w f = err invalid_json
  check_line not_an_object w f = err envelope_not_an_object
  check_line (footer g) w f = do guard (is_none f) duplicate_footer; ok (w, some g)
  check_line unknown_kind w f = do guard (is_none f) entry_after_footer; err unknown_envelope_kind
  check_line (entry e) w f = do
    guard (is_none f) entry_after_footer
    w' ← check_entry e w
    ok (w', f)

  unfoldable pub check_lines : List Line → Walk → Option Footer → Journal (Walk × Option Footer)
  unfolding check_line
  check_lines [] w f = ok (w, f)
  check_lines (l ∷ ls) w f = do (w', f') ← check_line l w f; check_lines ls w' f'

  -- `actual_footer == expected_footer`
  unfoldable pub matches : Footer → ℕ → Walk → Bool
  matches f segment_start w =
      holds f.base.segment_start_sequence segment_start
      && holds f.base.entry_count w.entry_count
      && holds f.base.global_sequence (w.expected_sequence - 1)
      && holds f.base.head_hash w.expected_hash
      && elim f.base.cursors [
        | none ↦ false
        | some (r, n) ↦ holds r w.cursors.receipts && holds n w.cursors.events
      ]

  abbrev pub start_walk : ℕ → String → Cursors → Walk
  start_walk sequence hash cursors = record {
    expected_sequence = sequence;
    expected_hash = hash;
    cursors = cursors;
    previous_order = none;
    entry_count = 0;
  }

  unfoldable pub check_segment : List Line → ℕ → String → Cursors → Journal (Walk × Footer)
  unfolding matches
  check_segment lines expected_sequence expected_hash cursors = do
    (w, seen) ← check_lines lines (start_walk expected_sequence expected_hash cursors) none
    f ← or_raise seen no_footer
    validate_footer hash_json f
    guard (matches f expected_sequence w) footer_does_not_match
    ok (w, f)
