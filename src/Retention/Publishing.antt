-- ===== src/Retention/Publishing.antt =====
-- Publication of a segment (`_SourceEntry` and `_publish_segment` of
-- src/sutradhara/retention_journal.py). The directory of the journal is the list of its segments, and a
-- rename puts a segment there whole: its temporary file is left out.
use sutradhara.Prelude.{
  ℕ, suc, ◌+◌, ◌/◌, Bool, not, ◌&&◌, some, List, [], ◌∷◌, ◌++◌, any, length, ◌==◌, String, nat_eq,
  ok, ◌>>=◌, ◌>>◌, guard,
}
use sutradhara.Retention.Rows.{Source, Payload}
use sutradhara.Retention.Journal.{
  Cursors, set_cursor, JournalState, Link, Envelope, FooterBase, Footer, stamp, SegmentPath,
  Segment, Line, entry, footer, HashJson, payload_document, link_document, footer_document, Journal,
  envelope_id_v1, hash_algorithm_sha256, state_from_footer, segment_exists,
}

pub record SourceEntry : Type 0 where
  pub source : Source
  pub event_id : ℕ
  pub payload : Payload

abbrev pub same_path : SegmentPath → SegmentPath → Bool
same_path p q =
    p.day == q.day && p.first_sequence == q.first_sequence && p.last_sequence == q.last_sequence

-- `final.exists()`
unfoldable pub path_exists : SegmentPath → List Segment → Bool
path_exists p ss = any (λ s. same_path s.path p) ss

-- `now.date()`, for an instant in microseconds
abbrev pub day_of : ℕ → ℕ
day_of now = now / 86400000000

module _ (hash_json : HashJson) where
  unfoldable pub link_of : SourceEntry → ℕ → String → Link
  link_of e sequence head_hash = record {
    envelope_id = envelope_id_v1;
    hash_algorithm_id = hash_algorithm_sha256;
    sequence = sequence;
    source = e.source;
    event_id = e.event_id;
    checksum = hash_json (payload_document e.payload);
    prev_hash = head_hash;
  }

  unfoldable pub entry_hash_of : SourceEntry → ℕ → String → String
  unfolding link_of
  entry_hash_of e sequence head_hash = hash_json (link_document (link_of e sequence head_hash))

  -- The line of an entry.
  unfoldable pub seal : SourceEntry → ℕ → String → Envelope
  unfolding entry_hash_of
  seal e sequence head_hash = record {
    envelope_id = some envelope_id_v1;
    hash_algorithm_id = some hash_algorithm_sha256;
    sequence = some sequence;
    source = some e.source;
    event_id = some e.event_id;
    checksum = some (hash_json (payload_document e.payload));
    prev_hash = some head_hash;
    payload = some e.payload;
    entry_hash = some (entry_hash_of e sequence head_hash);
  }

  -- The loop over the entries, as the lines it writes before the footer, the head and the cursors.
  unfoldable pub seal_all : List SourceEntry → ℕ → String → List Line
  unfolding seal entry_hash_of
  seal_all [] sequence head_hash = []
  seal_all (e ∷ es) sequence head_hash =
      entry (seal e sequence head_hash)
      ∷ seal_all es (suc sequence) (entry_hash_of e sequence head_hash)

  unfoldable pub final_head : List SourceEntry → ℕ → String → String
  unfolding entry_hash_of
  final_head [] sequence head_hash = head_hash
  final_head (e ∷ es) sequence head_hash =
      final_head es (suc sequence) (entry_hash_of e sequence head_hash)

  unfoldable pub final_cursors : List SourceEntry → Cursors → Cursors
  final_cursors [] cursors = cursors
  final_cursors (e ∷ es) cursors = final_cursors es (set_cursor e.source e.event_id cursors)

  unfoldable pub footer_base : List SourceEntry → JournalState → ℕ → FooterBase
  unfolding final_head final_cursors
  footer_base entries previous now =
      let cursors = final_cursors entries previous.cursors in
      record {
        footer_version = some 1;
        envelope_id = some envelope_id_v1;
        hash_algorithm_id = some hash_algorithm_sha256;
        segment_start_sequence = some (previous.global_sequence + 1);
        entry_count = some (length entries);
        global_sequence = some (previous.global_sequence + length entries);
        head_hash = some (final_head entries (previous.global_sequence + 1) previous.head_hash);
        cursors = some (some cursors.receipts, some cursors.events);
        published_at = stamp now;
        further = "";
      }

  unfoldable pub new_footer : List SourceEntry → JournalState → ℕ → Footer
  unfolding footer_base
  new_footer entries previous now =
      let base = footer_base entries previous now in
      record { base = base; footer_checksum = some (hash_json (footer_document base)) }

  unfoldable pub new_segment : List SourceEntry → JournalState → ℕ → Segment
  unfolding new_footer seal_all
  new_segment entries previous now = record {
    path = record {
      day = day_of now;
      first_sequence = previous.global_sequence + 1;
      last_sequence = previous.global_sequence + length entries;
    };
    lines =
        seal_all entries (previous.global_sequence + 1) previous.head_hash
        ++ footer (new_footer entries previous now) ∷ [];
  }

  unfoldable pub publish_segment :
      List Segment → List SourceEntry → JournalState → ℕ → Journal (Segment × JournalState)
  unfolding path_exists new_segment
  publish_segment files entries previous now = do
    let final = new_segment entries previous now
    guard (not (path_exists final.path files)) segment_exists
    state ← state_from_footer hash_json (new_footer entries previous now) final.path
    ok (final, state)
