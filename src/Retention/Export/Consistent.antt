-- ===== src/Retention/Export/Consistent.antt =====
-- What an export keeps (`_export_locked` of src/sutradhara/retention_journal.py): the directory is
-- sound, the journal holds the rows up to the cursors, and the checkpoint is not ahead.
use mathlib.Core.List.{append-nil}
use sutradhara.Prelude.{
  ℕ, ◌≤◌, ◌+◌, ◌≡◌, sym, subst, inl, inr, true, false, Option, none, some, List, [], ◌∷◌, ◌++◌, map,
  arith, String, ok, Option-cases,
}
use sutradhara.Prelude.Ordering.{last_key}
use sutradhara.Retention.Rows.{verify_receipt, retention_event, VerifyReceipt, RetentionEvent}
use sutradhara.Retention.Journal.{
  JournalState, HashJson, Document, link_document, is_sha256, validate_footer, footer,
}
use sutradhara.Retention.Publishing.{
  SourceEntry, entry_hash_of, link_of, final_head, final_cursors, new_footer, new_segment, seal_all,
}
use sutradhara.Retention.Walking.{start_walk}
use sutradhara.Retention.Walking.Lines.{AllAcceptable, sequence-advance_all, hash-advance_all}
use sutradhara.Retention.Directory.{Listed, Progress, start, passed}
use sutradhara.Retention.Directory.Aligned.{
  Aligned, journal_entries, entry_lines, entry_lines-seal_all,
}
use sutradhara.Retention.Directory.Reading.{Read, Read-append}
use sutradhara.Retention.Export.{
  World, Checkpoint, receipt_key, event_key, receipt_entry, event_entry, new_source_entries,
  write_checkpoint, is_ahead,
}
use sutradhara.Retention.Export.Cursor.{
  Journalled, pending_rows, Journalled-export, pending-Ascending,
}
use sutradhara.Retention.Export.BySource.{
  of_source, of_source-append, of_receipts-entries, of_events-entries, map-append,
}
use sutradhara.Retention.Export.Entries.{entries-AllAcceptable, final_cursors-entries}
use sutradhara.Retention.Export.Publication.{next_state, final_head-is_sha256, validate-new_footer}
use sutradhara.Retention.Export.Sound.{Sound, Sound-publish, next_progress}

-- A checkpoint changes nothing else, and is not ahead of the state that it was written for.
pub write_checkpoint-only :
    (s : JournalState) (w : World)
    → is_ahead w.checkpoint s ≡ false
    → (k : Option Checkpoint) × (write_checkpoint s w ≡ record w { checkpoint = k })
      × (is_ahead k s ≡ false)
unfolding write_checkpoint is_ahead
write_checkpoint-only s w b = elim (Option-cases s.published_filename) [
  | inl none' ↦ (w.checkpoint, ground arith, b)
  | inr (path, e) ↦ elim (Option-cases s.published_at) [
    | inl none' ↦ (w.checkpoint, ground arith, b)
    | inr (t, e') ↦ ((write_checkpoint s w).checkpoint, ground arith, ground arith)
  ]
]

pub not_ahead_later :
    (k : Option Checkpoint) (s s' : JournalState)
    → s.global_sequence ≤ s'.global_sequence
    → is_ahead k s ≡ false
    → is_ahead k s' ≡ false
unfolding is_ahead
not_ahead_later none s s' l b = b
not_ahead_later (some row) s s' l b = ground arith

module _ (hash_json : HashJson) where
  -- What `hashlib` documents: the hexadecimal digest of SHA-256 is 64 hexadecimal digits.
  pub record GivesDigests : Type 0 where
    pub digests : (d : Document) → is_sha256 (hash_json d) ≡ true

  pub record Consistent (w : World) : Type 0 where
    pub segments : List Listed
    pub progress : Progress
    pub entries : List SourceEntry
    pub receipts_journalled : List VerifyReceipt
    pub events_journalled : List RetentionEvent
    pub sound : Sound hash_json w.files segments progress
    pub digest : is_sha256 progress.state.head_hash ≡ true
    pub read : Read hash_json start progress segments entries
    pub of_receipts : of_source verify_receipt entries ≡ map receipt_entry receipts_journalled
    pub of_events : of_source retention_event entries ≡ map event_entry events_journalled
    pub receipts :
        Journalled receipt_key w.receipts receipts_journalled progress.state.cursors.receipts
    pub events : Journalled event_key w.events events_journalled progress.state.cursors.events
    pub behind : is_ahead w.checkpoint progress.state ≡ false

  unfoldable pub with_checkpoint :
      (w : World) (c : Consistent w) (k : Option Checkpoint)
      → is_ahead k c.progress.state ≡ false
      → Consistent (record w { checkpoint = k })
  with_checkpoint w c k b = record {
    segments = c.segments;
    progress = c.progress;
    entries = c.entries;
    receipts_journalled = c.receipts_journalled;
    events_journalled = c.events_journalled;
    sound = c.sound;
    digest = c.digest;
    read = c.read;
    of_receipts = c.of_receipts;
    of_events = c.of_events;
    receipts = c.receipts;
    events = c.events;
    behind = b;
  }

  pub Consistent-write_checkpoint :
      (w : World) (c : Consistent w) → Consistent (write_checkpoint c.progress.state w)
  Consistent-write_checkpoint w c =
      let (k, only, b) = write_checkpoint-only c.progress.state w c.behind in
      subst Consistent (sym only) (with_checkpoint w c k b)

  -- What a publication adds to what is read.
  pub Read-new_segment :
      (p : Progress) (xs : List SourceEntry) (now : ℕ)
      → Aligned p
      → Read hash_json p
          (next_progress hash_json xs p now)
          ((new_segment hash_json xs p.state now, new_footer hash_json xs p.state now) ∷ [])
          xs
  unfolding journal_entries new_segment next_progress passed
  Read-new_segment p xs now a =
      let from =
        start_walk hash_json (p.state.global_sequence + 1) p.state.head_hash p.state.cursors in
      let place : p.state.global_sequence + 1 ≡ p.expected_sequence = omega (arith, a.sequence) in
      let f = new_footer hash_json xs p.state now in
      let lines = seal_all hash_json xs (p.state.global_sequence + 1) p.state.head_hash in
      record {
        entries_read = cc (
          place,
          a.head,
          append-nil (entry_lines (lines ++ footer f ∷ [])),
          entry_lines-seal_all hash_json xs (p.state.global_sequence + 1) p.state.head_hash f,
        );
        sequence_read = omega (arith, a.sequence, sequence-advance_all hash_json xs from);
        head_read = cc (place, a.head, hash-advance_all hash_json xs from);
      }

  entry-digest :
      GivesDigests
      → (y : SourceEntry) (m : ℕ) (k : String) → is_sha256 (entry_hash_of hash_json y m k) ≡ true
  unfolding entry_hash_of
  entry-digest d y m k = d.digests (link_document (link_of hash_json y m k))

  pub head-pending :
      (w : World) (c : Consistent w) (xs : List SourceEntry)
      → GivesDigests
      → is_sha256 (
          final_head hash_json xs (c.progress.state.global_sequence + 1) c.progress.state.head_hash)
        ≡ true
  head-pending w c xs d =
      final_head-is_sha256 hash_json xs (c.progress.state.global_sequence + 1)
        c.progress.state.head_hash (entry-digest d) c.digest

  pub valid-pending :
      (w : World) (c : Consistent w) (x : SourceEntry) (xs : List SourceEntry) (now : ℕ)
      → GivesDigests
      → validate_footer hash_json (new_footer hash_json (x ∷ xs) c.progress.state now) ≡ ok tt
  valid-pending w c x xs now d =
      validate-new_footer hash_json x xs c.progress.state now (head-pending w c (x ∷ xs) d)

  -- A publication of the pending rows keeps all of it.
  unfoldable pub with_publication :
      (w : World) (c : Consistent w) (x : SourceEntry) (xs : List SourceEntry) (now : ℕ)
      → GivesDigests
      → new_source_entries w.receipts w.events c.progress.state.cursors ≡ x ∷ xs
      → Consistent
          (record w { files = w.files ++ new_segment hash_json (x ∷ xs) c.progress.state now ∷ [] })
  unfolding new_source_entries next_progress passed next_state is_ahead
  with_publication w c x xs now d e =
      let state = c.progress.state in
      let from = start_walk hash_json (state.global_sequence + 1) state.head_hash state.cursors in
      let rs = pending_rows receipt_key state.cursors.receipts w.receipts in
      let es = pending_rows event_key state.cursors.events w.events in
      let rising =
        pending-Ascending receipt_key w.receipts c.receipts_journalled state.cursors.receipts
          c.receipts in
      let rising' =
        pending-Ascending event_key w.events c.events_journalled state.cursors.events c.events in
      let fits =
        entries-AllAcceptable hash_json rs es (state.global_sequence + 1) state.head_hash
          state.cursors rising rising' in
      let fits' = subst (λ ys. AllAcceptable hash_json ys from) e fits in
      let head = head-pending w c (x ∷ xs) d in
      let valid = valid-pending w c x xs now d in
      let cursors : final_cursors hash_json (x ∷ xs) state.cursors ≡ record {
        receipts = last_key receipt_key state.cursors.receipts rs;
        events = last_key event_key state.cursors.events es;
      } =
        cc (e, final_cursors-entries hash_json rs es state.cursors) in
      record {
        segments =
            c.segments
            ++ (new_segment hash_json (x ∷ xs) state now, new_footer hash_json (x ∷ xs) state now)
              ∷ [];
        progress = next_progress hash_json (x ∷ xs) c.progress now;
        entries = c.entries ++ x ∷ xs;
        receipts_journalled = c.receipts_journalled ++ rs;
        events_journalled = c.events_journalled ++ es;
        sound = Sound-publish hash_json w.files c.segments c.progress x xs now c.sound fits' valid;
        digest = head;
        read =
            Read-append hash_json start c.progress (next_progress hash_json (x ∷ xs) c.progress now)
              c.segments _ c.entries (x ∷ xs) c.read
              (Read-new_segment c.progress (x ∷ xs) now c.sound.aligned);
        of_receipts = cc (
          e,
          c.of_receipts,
          of_source-append verify_receipt c.entries (x ∷ xs),
          of_receipts-entries rs es,
          map-append receipt_entry c.receipts_journalled rs,
        );
        of_events = cc (
          e,
          c.of_events,
          of_source-append retention_event c.entries (x ∷ xs),
          of_events-entries rs es,
          map-append event_entry c.events_journalled es,
        );
        receipts =
            subst (λ v. Journalled receipt_key w.receipts (c.receipts_journalled ++ rs) v.receipts)
              (sym cursors)
              (Journalled-export receipt_key w.receipts c.receipts_journalled state.cursors.receipts
                c.receipts);
        events =
            subst (λ v. Journalled event_key w.events (c.events_journalled ++ es) v.events)
              (sym cursors)
              (Journalled-export event_key w.events c.events_journalled state.cursors.events
                c.events);
        behind =
            not_ahead_later w.checkpoint state (next_state hash_json (x ∷ xs) state now)
              (omega arith) c.behind;
      }
