-- ===== src/Retention/Export/Complete.antt =====
-- A journal that holds every receipt once (`_export_locked` of src/sutradhara/retention_journal.py), and
-- that an export leaves it so.
use mathlib.Core.List.{append-nil}
use sutradhara.Prelude.{
  ℕ, ◌≡◌, ap, sym, subst, ◌∙◌, Bool, false, Option, none, List, [], ◌∷◌, map, ok,
}
use sutradhara.Prelude.Ordering.{order_by, last_key}
use sutradhara.Retention.Rows.{verify_receipt, retention_event}
use sutradhara.Retention.Journal.{HashJson, genesis_hash}
use sutradhara.Retention.Publishing.{SourceEntry, seal_all, final_cursors}
use sutradhara.Retention.Directory.{
  Listed, Progress, start, published_segments, published_state, walk_segments, passed,
}
use sutradhara.Retention.Directory.Aligned.{journal_entries, entry_lines}
use sutradhara.Retention.Export.{
  World, Checkpoint, receipt_key, event_key, receipt_entry, event_entry, new_source_entries,
  write_checkpoint, is_ahead,
}
use sutradhara.Retention.Export.Cursor.{pending_rows, exported-none}
use sutradhara.Retention.Export.BySource.{of_source, no_entries}
use sutradhara.Retention.Export.Entries.{final_cursors-entries}
use sutradhara.Retention.Export.Publication.{next_state}
use sutradhara.Retention.Export.Sound.{next_progress}
use sutradhara.Retention.Export.Consistent.{
  GivesDigests, Consistent, with_checkpoint, with_publication, write_checkpoint-only,
}
use sutradhara.Retention.Export.Outcome.{outcome, with_segment, pending}

module _ (hash_json : HashJson) where
  -- A journal that holds exactly the rows of both tables, each once and in the order of its ids, and
  -- that lists and walks without an issue; its checkpoint is not ahead.
  pub record Complete (w : World) : Type 0 where
    pub segments : List Listed
    pub progress : Progress
    pub entries : List SourceEntry
    pub listed : published_segments hash_json w.files ≡ ok segments
    pub walked : walk_segments hash_json segments start ≡ ok (progress, none)
    pub stated : published_state hash_json segments ≡ ok progress.state
    pub sealed : journal_entries segments ≡ entry_lines (seal_all hash_json entries 1 genesis_hash)
    pub all_receipts :
        of_source verify_receipt entries ≡ map receipt_entry (order_by receipt_key w.receipts)
    pub all_events :
        of_source retention_event entries ≡ map event_entry (order_by event_key w.events)
    pub not_ahead : is_ahead w.checkpoint progress.state ≡ false

  none-Complete :
      (w : World) (c : Consistent hash_json w)
      → pending_rows receipt_key c.progress.state.cursors.receipts w.receipts ≡ []
      → pending_rows event_key c.progress.state.cursors.events w.events ≡ []
      → Complete w
  none-Complete w c none_r none_e = record {
    segments = c.segments;
    progress = c.progress;
    entries = c.entries;
    listed = c.sound.listed;
    walked = c.sound.walked;
    stated = c.sound.stated;
    sealed = c.read.entries_read;
    all_receipts =
        cc (c.of_receipts, none_r, append-nil c.receipts_journalled, c.receipts.complete);
    all_events = cc (c.of_events, none_e, append-nil c.events_journalled, c.events.complete);
    not_ahead = c.behind;
  }

  -- The world behind a publication of the pending rows.
  unfoldable pub republished :
      (w : World) (c : Consistent hash_json w) (x : SourceEntry) (xs : List SourceEntry) (now : ℕ)
      (k : Option Checkpoint)
      → GivesDigests hash_json
      → pending hash_json w c ≡ x ∷ xs
      → is_ahead k c.progress.state ≡ false
      → Consistent hash_json
          (with_segment hash_json (x ∷ xs) c.progress.state now (record w { checkpoint = k }))
  unfolding with_checkpoint with_publication with_segment
  republished w c x xs now k d e b =
      with_publication hash_json (record w { checkpoint = k }) (with_checkpoint hash_json w c k b) x
        xs now d e

  -- What an export leaves is consistent, and complete where the hook does not raise.
  pub outcome-nil :
      (w : World) (c : Consistent hash_json w) (now : ℕ) (crash : Bool)
      → pending hash_json w c ≡ []
      → Complete (outcome hash_json [] c.progress.state now crash w)
  unfolding outcome with_checkpoint new_source_entries
  outcome-nil w c now crash e =
      let (no_receipts, no_events) =
        no_entries (pending_rows receipt_key c.progress.state.cursors.receipts w.receipts)
          (pending_rows event_key c.progress.state.cursors.events w.events) e in
      let (k, only, b) = write_checkpoint-only c.progress.state w c.behind in
      subst Complete (sym only) (
        none-Complete (record w { checkpoint = k }) (with_checkpoint hash_json w c k b) no_receipts
          no_events)

  -- Past the cursors of the new footer there is no row.
  pub none_after :
      (w : World) (c : Consistent hash_json w) (x : SourceEntry) (xs : List SourceEntry)
      → pending hash_json w c ≡ x ∷ xs
      → let cursors = final_cursors hash_json (x ∷ xs) c.progress.state.cursors in
        (pending_rows receipt_key cursors.receipts w.receipts ≡ [])
        × (pending_rows event_key cursors.events w.events ≡ [])
  unfolding new_source_entries
  none_after w c x xs e =
      let before = c.progress.state.cursors in
      let rs = pending_rows receipt_key before.receipts w.receipts in
      let es = pending_rows event_key before.events w.events in
      let moved : final_cursors hash_json (x ∷ xs) before ≡ record {
        receipts = last_key receipt_key before.receipts rs;
        events = last_key event_key before.events es;
      } =
        cc (e, final_cursors-entries hash_json rs es before) in
      (
        subst (λ v. pending_rows receipt_key v.receipts w.receipts ≡ []) (sym moved)
            (exported-none receipt_key w.receipts c.receipts_journalled before.receipts c.receipts),
        subst (λ v. pending_rows event_key v.events w.events ≡ []) (sym moved)
            (exported-none event_key w.events c.events_journalled before.events c.events),
      )

  pub outcome-cons :
      (w : World) (c : Consistent hash_json w) (now : ℕ) (x : SourceEntry) (xs : List SourceEntry)
      → GivesDigests hash_json
      → pending hash_json w c ≡ x ∷ xs
      → Complete (outcome hash_json (x ∷ xs) c.progress.state now false w)
  unfolding outcome republished with_checkpoint with_publication next_progress passed next_state
  outcome-cons w c now x xs d e =
      let (k, only, b) = write_checkpoint-only c.progress.state w c.behind in
      let next = next_state hash_json (x ∷ xs) c.progress.state now in
      let w' = with_segment hash_json (x ∷ xs) c.progress.state now (record w { checkpoint = k }) in
      let c' = republished w c x xs now k d e b in
      let (k', only', b') = write_checkpoint-only next w' c'.behind in
      let c'' = with_checkpoint hash_json w' c' k' b' in
      let (no_receipts, no_events) = none_after w c x xs e in
      let written =
        ap (λ v. write_checkpoint next (with_segment hash_json (x ∷ xs) c.progress.state now v))
          only
        ∙ only' in
      subst Complete (sym written)
        (none-Complete (record w' { checkpoint = k' }) c'' no_receipts no_events)
