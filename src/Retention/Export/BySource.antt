-- ===== src/Retention/Export/BySource.antt =====
-- The entries of one source (`_new_source_entries` of src/sutradhara/retention_journal.py).
use sutradhara.Prelude.{◌≡◌, refl, ap, Bool, true, false, List, [], ◌∷◌, ◌++◌, map, filter, arith}
use sutradhara.Retention.Rows.{
  Source, verify_receipt, retention_event, VerifyReceipt, RetentionEvent,
}
use sutradhara.Retention.Publishing.{SourceEntry}
use sutradhara.Retention.Export.{receipt_entry, event_entry}

is_of : Source → Source → Bool
is_of verify_receipt verify_receipt = true
is_of verify_receipt retention_event = false
is_of retention_event verify_receipt = false
is_of retention_event retention_event = true

-- The entries of one source.
unfoldable pub of_source : Source → List SourceEntry → List SourceEntry
unfolding is_of
of_source s xs = filter (λ x. is_of s x.source) xs

pub of_source-append :
    (s : Source) (xs ys : List SourceEntry)
    → of_source s (xs ++ ys) ≡ of_source s xs ++ of_source s ys
unfolding of_source
of_source-append s [] ys = refl
of_source-append s (x ∷ xs) ys = ground (arith, of_source-append s xs ys)

of_receipts-events : (es : List RetentionEvent) → of_source verify_receipt (map event_entry es) ≡ []
unfolding of_source
of_receipts-events [] = refl
of_receipts-events (e ∷ es) = of_receipts-events es

of_events-events :
    (es : List RetentionEvent) → of_source retention_event (map event_entry es) ≡ map event_entry es
unfolding of_source
of_events-events [] = refl
of_events-events (e ∷ es) = ap (λ r. event_entry e ∷ r) (of_events-events es)

pub of_receipts-entries :
    (rs : List VerifyReceipt) (es : List RetentionEvent)
    → of_source verify_receipt (map receipt_entry rs ++ map event_entry es) ≡ map receipt_entry rs
unfolding of_source
of_receipts-entries [] es = of_receipts-events es
of_receipts-entries (r ∷ rs) es = ap (λ t. receipt_entry r ∷ t) (of_receipts-entries rs es)

pub of_events-entries :
    (rs : List VerifyReceipt) (es : List RetentionEvent)
    → of_source retention_event (map receipt_entry rs ++ map event_entry es) ≡ map event_entry es
unfolding of_source
of_events-entries [] es = of_events-events es
of_events-entries (r ∷ rs) es = of_events-entries rs es

pub map-append :
    {A B : Type 0} (f : A → B) (xs ys : List A) → map f (xs ++ ys) ≡ map f xs ++ map f ys
map-append f [] ys = refl
map-append f (x ∷ xs) ys = ap (λ r. f x ∷ r) (map-append f xs ys)

-- No entries come from no rows.
pub no_entries :
    (rs : List VerifyReceipt) (es : List RetentionEvent)
    → map receipt_entry rs ++ map event_entry es ≡ []
    → (rs ≡ []) × (es ≡ [])
no_entries [] [] h = (refl, refl)
no_entries [] (e ∷ es) h = absurd (ground arith)
no_entries (r ∷ rs) es h = absurd (ground arith)
