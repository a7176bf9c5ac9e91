-- ===== src/Retention/Export/Entries.antt =====
-- The entries of an export (`_new_source_entries` of src/sutradhara/retention_journal.py) may stand in
-- the journal in their order.
use sutradhara.Prelude.{ℕ, ◌<◌, ◌≡◌, refl, true, some, List, [], ◌∷◌, ◌++◌, map, arith, String}
use sutradhara.Prelude.Dict.{lookup}
use sutradhara.Prelude.Ordering.{Ascending, last_key}
use sutradhara.Retention.Rows.{
  VerifyReceipt, RetentionEvent, verify_receipt_payload, retention_event_payload, payload_event_id,
}
use sutradhara.Retention.Journal.{Cursors, HashJson}
use sutradhara.Retention.Publishing.{final_cursors}
use sutradhara.Retention.Walking.{Walk, is_later, start_walk}
use sutradhara.Retention.Walking.Checked.{advance}
use sutradhara.Retention.Walking.Lines.{AllAcceptable}
use sutradhara.Retention.Export.{receipt_key, event_key, receipt_entry, event_entry}

receipt-named : (r : VerifyReceipt) → payload_event_id (verify_receipt_payload r) ≡ some r.event_id
unfolding payload_event_id verify_receipt_payload lookup
receipt-named r = refl

event-named : (e : RetentionEvent) → payload_event_id (retention_event_payload e) ≡ some e.event_id
unfolding payload_event_id retention_event_payload lookup
event-named e = refl

module _ (hash_json : HashJson) where
  events-AllAcceptable :
      (es : List RetentionEvent) (w : Walk)
      → Ascending event_key w.cursors.events es
      → ((m : ℕ) → w.cursors.events < m → is_later (1, m) w.previous_order ≡ true)
      → AllAcceptable hash_json (map event_entry es) w
  unfolding advance
  events-AllAcceptable [] w a later = tt
  events-AllAcceptable (e ∷ es) w (h, hs) later = (
    record { named = event-named e; later = later e.event_id h; past = h },
    events-AllAcceptable es (advance hash_json (event_entry e) w) hs (λ m l. ground arith),
  )

  receipts-AllAcceptable :
      (rs : List VerifyReceipt) (es : List RetentionEvent) (w : Walk)
      → Ascending receipt_key w.cursors.receipts rs
      → Ascending event_key w.cursors.events es
      → ((m : ℕ) → w.cursors.receipts < m → is_later (0, m) w.previous_order ≡ true)
      → ((m : ℕ) → w.cursors.events < m → is_later (1, m) w.previous_order ≡ true)
      → AllAcceptable hash_json (map receipt_entry rs ++ map event_entry es) w
  unfolding advance
  receipts-AllAcceptable [] es w a b later later' = events-AllAcceptable es w b later'
  receipts-AllAcceptable (r ∷ rs) es w (h, hs) b later later' = (
    record { named = receipt-named r; later = later r.event_id h; past = h },
    receipts-AllAcceptable rs es (advance hash_json (receipt_entry r) w) hs b (λ m l. ground arith)
        (λ m l. ground arith),
  )

  -- Rows past their cursors, in the order of their ids.
  pub entries-AllAcceptable :
      (rs : List VerifyReceipt) (es : List RetentionEvent) (n : ℕ) (h : String) (c : Cursors)
      → Ascending receipt_key c.receipts rs
      → Ascending event_key c.events es
      → AllAcceptable hash_json
          (map receipt_entry rs ++ map event_entry es)
          (start_walk hash_json n h c)
  entries-AllAcceptable rs es n h c a b =
      receipts-AllAcceptable rs es (start_walk hash_json n h c) a b (λ m l. refl) (λ m l. refl)

  final_cursors-events :
      (es : List RetentionEvent) (c : Cursors)
      → final_cursors hash_json (map event_entry es) c
        ≡ record c { events = last_key event_key c.events es }
  unfolding final_cursors
  final_cursors-events [] c = refl
  final_cursors-events (e ∷ es) c = final_cursors-events es (record c { events = e.event_id })

  pub final_cursors-entries :
      (rs : List VerifyReceipt) (es : List RetentionEvent) (c : Cursors)
      → final_cursors hash_json (map receipt_entry rs ++ map event_entry es) c ≡ record {
        receipts = last_key receipt_key c.receipts rs;
        events = last_key event_key c.events es;
      }
  unfolding final_cursors
  final_cursors-entries [] es c = final_cursors-events es c
  final_cursors-entries (r ∷ rs) es c =
      final_cursors-entries rs es (record c { receipts = r.event_id })
