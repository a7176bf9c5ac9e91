-- ===== src/Retention/Walking/Checked.antt =====
-- What the walk accepts (`_check_segment` of src/sutradhara/retention_journal.py): an entry passes just
-- where it is the line that a publication writes at that place of the chain.
use sutradhara.Prelude.{
  ℕ, suc, ◌<◌, ◌≡◌, refl, ap, true, Option, none, some, arith, Eq, String, nat_eq, string_eq, ok,
  Option-cases, inl, inr,
}
use sutradhara.Retention.Rows.{source_rank, payload_event_id}
use sutradhara.Retention.Journal.{
  cursor_of, set_cursor, Envelope, HashJson, holds, payload_document, link_document, envelope_id_v1,
  hash_algorithm_sha256,
}
use sutradhara.Retention.Publishing.{SourceEntry, seal, entry_hash_of, link_of}
use sutradhara.Retention.Walking.{Walk, is_later, check_entry, rebuilt_link}

-- An entry that may stand next: its payload names it, it is later in the segment and past its cursor.
pub record Acceptable (x : SourceEntry) (w : Walk) : Type 0 where
  pub named : payload_event_id x.payload ≡ some x.event_id
  pub later : is_later (source_rank x.source, x.event_id) w.previous_order ≡ true
  pub past : cursor_of x.source w.cursors < x.event_id

pub holds→some : {A : Type 0} ⦃e : Eq A⦄ (o : Option A) (c : A) → holds o c ≡ true → o ≡ some c
holds→some none c h = absurd (ground arith)
holds→some ⦃e⦄ (some x) c h = ap some ((e.same_iff x c).0 h)

pub holds-some : {A : Type 0} ⦃e : Eq A⦄ (c : A) → holds (some c) c ≡ true
holds-some ⦃e⦄ c = (e.same_iff c c).1 refl

module _ (hash_json : HashJson) where
  unfoldable pub advance : SourceEntry → Walk → Walk
  advance x w = record {
    expected_sequence = suc w.expected_sequence;
    expected_hash = entry_hash_of hash_json x w.expected_sequence w.expected_hash;
    cursors = set_cursor x.source x.event_id w.cursors;
    previous_order = some (source_rank x.source, x.event_id);
    entry_count = suc w.entry_count;
  }

  pub check_entry-seal :
      (x : SourceEntry) (w : Walk)
      → Acceptable x w
      → check_entry hash_json (seal hash_json x w.expected_sequence w.expected_hash) w
        ≡ ok (advance x w)
  unfolding check_entry seal entry_hash_of link_of advance
  check_entry-seal x w a = ground (
    arith,
    string_eq.same_iff w.expected_hash w.expected_hash,
    string_eq.same_iff (hash_json (payload_document x.payload))
        (hash_json (payload_document x.payload)),
    string_eq.same_iff (entry_hash_of hash_json x w.expected_sequence w.expected_hash)
        (entry_hash_of hash_json x w.expected_sequence w.expected_hash),
  )

  -- The fields that a checked entry has.
  fields-inv :
      (e : Envelope) (w w' : Walk)
      → check_entry hash_json e w ≡ ok w'
      → (x : SourceEntry) (sequence : ℕ) (checksum entry_hash : String) → e.sequence ≡ some sequence
      → e.source ≡ some x.source
      → e.event_id ≡ some x.event_id
      → e.payload ≡ some x.payload
      → e.checksum ≡ some checksum
      → e.entry_hash ≡ some entry_hash
      → (e ≡ seal hash_json x w.expected_sequence w.expected_hash)
        × Acceptable x w
        × (w' ≡ advance x w)
  unfolding check_entry seal entry_hash_of link_of advance
  fields-inv e w w' h x sequence checksum entry_hash c3 c5 c6 c9 c11 c14 =
      let link = rebuilt_link sequence x.source x.event_id checksum w.expected_hash in
      let id = holds→some e.envelope_id envelope_id_v1 (ground arith) in
      let algorithm = holds→some e.hash_algorithm_id hash_algorithm_sha256 (ground arith) in
      let place : sequence ≡ w.expected_sequence = ground arith in
      let named = holds→some (payload_event_id x.payload) x.event_id (ground arith) in
      let summed =
        (string_eq.same_iff checksum (hash_json (payload_document x.payload))).0 (ground arith) in
      let linked = holds→some e.prev_hash w.expected_hash (ground arith) in
      let hashed =
        (string_eq.same_iff entry_hash (hash_json (link_document link))).0 (ground arith) in
      let sealed : entry_hash ≡ entry_hash_of hash_json x w.expected_sequence w.expected_hash =
        cc in
      (cc, record { named = named; later = ground arith; past = ground arith }, ground arith)

  pub check_entry-inv :
      (e : Envelope) (w w' : Walk)
      → check_entry hash_json e w ≡ ok w'
      → (x : SourceEntry) × (e ≡ seal hash_json x w.expected_sequence w.expected_hash)
        × Acceptable x w
        × (w' ≡ advance x w)
  unfolding check_entry
  check_entry-inv e w w' h = elim (Option-cases e.sequence) [
    | inl n ↦ absurd (ground arith)
    | inr (sequence, c3) ↦ elim (Option-cases e.source) [
      | inl n ↦ absurd (ground arith)
      | inr (source, c5) ↦ elim (Option-cases e.event_id) [
        | inl n ↦ absurd (ground arith)
        | inr (event_id, c6) ↦ elim (Option-cases e.payload) [
          | inl n ↦ absurd (ground arith)
          | inr (payload, c9) ↦ elim (Option-cases e.checksum) [
            | inl n ↦ absurd (ground arith)
            | inr (checksum, c11) ↦ elim (Option-cases e.entry_hash) [
              | inl n ↦ absurd (ground arith)
              | inr (entry_hash, c14) ↦
                  let x : SourceEntry = record {
                    source = source;
                    event_id = event_id;
                    payload = payload;
                  } in
                  let r = fields-inv e w w' h x sequence checksum entry_hash c3 c5 c6 c9 c11 c14 in
                  (x, r.0, r.1, r.2)
            ]
          ]
        ]
      ]
    ]
  ]
