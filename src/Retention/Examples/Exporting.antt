-- ===== src/Retention/Examples/Exporting.antt =====
-- Exports of two receipts and an event (src/sutradhara/retention_journal.py).
use sutradhara.Prelude.{
  ℕ, ◌≡◌, refl, Bool, true, false, none, some, [], ◌∷◌, nat_eq, ◌==◌, if◌then◌else◌, arith,
}
use sutradhara.Retention.Rows.{VerifyReceipt, RetentionEvent}
use sutradhara.Retention.Journal.{
  HashJson, Document, payload_document, link_document, footer_document, is_sha256,
  state_from_footer, validate_footer, read_footer,
}
use sutradhara.Retention.Publishing.{publish_segment}
use sutradhara.Retention.Directory.{published_segments, published_state}
use sutradhara.Retention.Export.{World, export_segments}
use sutradhara.Retention.Export.Consistent.{GivesDigests}
use sutradhara.Retention.Export.Complete.{Complete}
use sutradhara.Retention.Export.Steps.{
  Steps, receipt, event, export, done, more, empty_world, answers, export_exact,
}
use sutradhara.Retention.Export.Recovery.{crash_recovers}

-- Digests that tell the kinds of documents apart.
abbrev pub toy_hash : HashJson
toy_hash (payload_document p) = "aaaaaaaaaaaaaaaaaaaaaaaaaaaaaaaaaaaaaaaaaaaaaaaaaaaaaaaaaaaaaaaa"
toy_hash (link_document l) =
    if l.sequence == 1
    then "1111111111111111111111111111111111111111111111111111111111111111"
    else "2222222222222222222222222222222222222222222222222222222222222222"
toy_hash (footer_document f) = "ffffffffffffffffffffffffffffffffffffffffffffffffffffffffffffffff"

link_digest :
    (b : Bool)
    → is_sha256 (
        if b
        then "1111111111111111111111111111111111111111111111111111111111111111"
        else "2222222222222222222222222222222222222222222222222222222222222222")
      ≡ true
unfolding is_sha256
link_digest true = refl
link_digest false = refl

toy_digest : (d : Document) → is_sha256 (toy_hash d) ≡ true
unfolding is_sha256
toy_digest (payload_document p) = refl
toy_digest (link_document l) = link_digest (l.sequence == 1)
toy_digest (footer_document f) = refl

pub toy_digests : GivesDigests toy_hash
toy_digests = record { digests = toy_digest }

abbrev pub receipt_of : ℕ → VerifyReceipt
receipt_of n = record {
  event_id = n;
  copy_id = 3;
  backend_id = 1;
  expected_digest = "d0";
  measured_digest = some "d0";
  backend_ok = true;
  failure_kind = none;
  failure_detail = none;
  source = "scrub";
  execution_id = "e";
  producer_process = "worker";
  actor = none;
  at_time = 10;
}

abbrev pub media_event : RetentionEvent
media_event = record {
  event_id = 1;
  intake_id = none;
  subject_type = "media";
  subject_id = "tape:1";
  action = "offsite_confirmed";
  operation_id = "o";
  actor = "op";
  at_time = 12;
  detail = none;
  supersedes_source = none;
  supersedes_event_id = none;
}

abbrev one_receipt : World
one_receipt = record empty_world { receipts = receipt_of 1 ∷ [] }

-- A receipt, an export that is cut off, a second receipt, and an event.
abbrev cut_off : World
cut_off = (export_segments toy_hash 5 true one_receipt).0

abbrev two_receipts : World
two_receipts = record cut_off { receipts = receipt_of 2 ∷ cut_off.receipts }

abbrev pub with_event : World
with_event = record two_receipts { events = media_event ∷ two_receipts.events }

Steps-to_receipt : Steps toy_hash empty_world one_receipt
Steps-to_receipt =
    more empty_world empty_world one_receipt (done empty_world)
      (receipt empty_world (receipt_of 1) (omega arith) tt)

pub Steps-to_event : Steps toy_hash empty_world with_event
unfolding export_segments published_segments published_state publish_segment state_from_footer
    validate_footer is_sha256 read_footer
Steps-to_event =
    more empty_world two_receipts with_event
      (more empty_world cut_off two_receipts
        (more empty_world one_receipt cut_off Steps-to_receipt (export one_receipt 5 true))
        (receipt cut_off (receipt_of 2) (omega arith) (omega arith, tt)))
      (event two_receipts media_event (omega arith) tt)

export_exact_example :
    (answers toy_hash (export_segments toy_hash 9 false with_event).1 ≡ true)
    × Complete toy_hash (export_segments toy_hash 9 false with_event).0
export_exact_example = export_exact toy_hash with_event 9 toy_digests Steps-to_event

crash_recovers_example :
    (export_segments toy_hash 9 false (export_segments toy_hash 7 true with_event).0).0
    ≡ (export_segments toy_hash 7 false with_event).0
crash_recovers_example = crash_recovers toy_hash with_event 7 9 toy_digests Steps-to_event
