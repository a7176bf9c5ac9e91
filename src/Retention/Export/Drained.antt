-- ===== src/Retention/Export/Drained.antt =====
-- After an export nothing is left to export (`_export_locked` of src/sutradhara/retention_journal.py).
use sutradhara.Prelude.{ℕ, ◌≡◌, refl, sym, subst, false, length, List, [], ◌∷◌, ok}
use sutradhara.Retention.Journal.{HashJson}
use sutradhara.Retention.Publishing.{SourceEntry}
use sutradhara.Retention.Directory.{passed}
use sutradhara.Retention.Export.{
  World, Published, new_source_entries, write_checkpoint, published, export_segments,
}
use sutradhara.Retention.Export.Publication.{next_state}
use sutradhara.Retention.Export.Sound.{next_progress}
use sutradhara.Retention.Export.Consistent.{
  GivesDigests, Consistent, with_checkpoint, with_publication, write_checkpoint-only,
}
use sutradhara.Retention.Export.Complete.{republished}
use sutradhara.Retention.Export.Outcome.{
  outcome, answer, with_segment, pending, published-Consistent, export_segments-exact,
}
use sutradhara.Retention.Export.Recovery.{none-pending}

module _ (hash_json : HashJson) where
  -- An export that returned `after`: the directory is at its state, and no row is past it.
  pub record Drained (after : Published) (w : World) : Type 0 where
    pub directory : published hash_json w.files ≡ ok (after.segments, after.state)
    pub none_left : new_source_entries w.receipts w.events after.state.cursors ≡ []

  outcome-Drained :
      (w : World) (c : Consistent hash_json w) (now : ℕ) (es : List SourceEntry)
      → GivesDigests hash_json
      → pending hash_json w c ≡ es
      → (p : Published) × (answer hash_json es c.segments c.progress.state now false ≡ ok p)
        × (p.entry_count ≡ length es)
        × Drained p (outcome hash_json es c.progress.state now false w)
  unfolding outcome answer republished with_checkpoint with_publication next_progress passed
      next_state
  outcome-Drained w c now [] d e =
      let (k, only, b) = write_checkpoint-only c.progress.state w c.behind in
      let p : Published = record {
        entry_count = 0;
        segments = c.segments;
        state = c.progress.state;
      } in
      (
        p,
        refl,
        refl,
        subst (Drained p) (sym only)
            (record { directory = published-Consistent hash_json w c; none_left = e }),
      )
  outcome-Drained w c now (x ∷ xs) d e =
      let state = c.progress.state in
      let segment = with_segment hash_json (x ∷ xs) state now in
      let next = next_state hash_json (x ∷ xs) state now in
      let (k, only, b) = write_checkpoint-only state w c.behind in
      let w' : World = segment (record w { checkpoint = k }) in
      let c' = republished hash_json w c x xs now k d e b in
      let p : Published = record {
        entry_count = length (x ∷ xs);
        segments = c'.segments;
        state = next;
      } in
      (
        p,
        refl,
        refl,
        subst (λ v. Drained p (write_checkpoint next (segment v))) (sym only)
            (record {
              directory = published-Consistent hash_json w' c';
              none_left = none-pending hash_json w c x xs now k d e b;
            }),
      )

  -- An export from a reachable world returns, and leaves nothing to export.
  pub export_segments-Drained :
      (w : World) (c : Consistent hash_json w) (now : ℕ)
      → GivesDigests hash_json
      → (p : Published) × ((export_segments hash_json now false w).1 ≡ ok p)
        × (p.entry_count ≡ length (pending hash_json w c))
        × Drained p (export_segments hash_json now false w).0
  export_segments-Drained w c now d =
      rw (export_segments-exact hash_json w c now false d)
        (outcome-Drained w c now (pending hash_json w c) d refl)
