-- ===== src/Retention/Export/Recovery.antt =====
-- An export that is cut off between publication and checkpoint (`crash_hook` of `_export_locked` in
-- src/sutradhara/retention_journal.py) is made good by the next one.
use sutradhara.Prelude.{ℕ, ◌≡◌, refl, ap, sym, ◌∙◌, Bool, true, false, Option, List, [], ◌∷◌, arith}
use sutradhara.Retention.Journal.{HashJson, JournalState}
use sutradhara.Retention.Publishing.{SourceEntry}
use sutradhara.Retention.Directory.{passed}
use sutradhara.Retention.Export.{
  World, Checkpoint, new_source_entries, write_checkpoint, is_ahead, export_segments,
}
use sutradhara.Retention.Export.Publication.{next_state}
use sutradhara.Retention.Export.Sound.{next_progress}
use sutradhara.Retention.Export.Consistent.{
  GivesDigests, Consistent, with_checkpoint, with_publication, write_checkpoint-only,
}
use sutradhara.Retention.Export.Complete.{republished, none_after}
use sutradhara.Retention.Export.Outcome.{outcome, with_segment, pending, export_segments-exact}
use sutradhara.Retention.Export.Steps.{Steps, empty_world, Steps-Consistent}

module _ (hash_json : HashJson) where
  write_checkpoint_idem :
      (s : JournalState) (w : World)
      → write_checkpoint s (write_checkpoint s w) ≡ write_checkpoint s w
  unfolding write_checkpoint
  write_checkpoint_idem s w = ground arith

  -- With nothing pending, an export writes the checkpoint.
  export-none :
      (w : World) (c : Consistent hash_json w) (now : ℕ) (crash : Bool)
      → GivesDigests hash_json
      → pending hash_json w c ≡ []
      → (export_segments hash_json now crash w).0 ≡ write_checkpoint c.progress.state w
  unfolding outcome
  export-none w c now crash d e =
      ap (λ r. r.0) (export_segments-exact hash_json w c now crash d)
      ∙ ap (λ es. outcome hash_json es c.progress.state now crash w) e

  recovers-nil :
      (w : World) (c : Consistent hash_json w) (now later : ℕ)
      → GivesDigests hash_json
      → pending hash_json w c ≡ []
      → (export_segments hash_json later false (write_checkpoint c.progress.state w)).0
        ≡ write_checkpoint c.progress.state w
  unfolding with_checkpoint
  recovers-nil w c now later d e =
      let state = c.progress.state in
      let (k, only, b) = write_checkpoint-only state w c.behind in
      let w' : World = record w { checkpoint = k } in
      let again = export-none w' (with_checkpoint hash_json w c k b) later false d e in
      ap (λ v. (export_segments hash_json later false v).0) only
      ∙ again
      ∙ ap (write_checkpoint state) (sym only)
      ∙ write_checkpoint_idem state w

  -- Behind a publication of the pending rows nothing is pending.
  pub none-pending :
      (w : World) (c : Consistent hash_json w) (x : SourceEntry) (xs : List SourceEntry) (now : ℕ)
      (k : Option Checkpoint) (d : GivesDigests hash_json) (e : pending hash_json w c ≡ x ∷ xs)
      (b : is_ahead k c.progress.state ≡ false)
      → pending hash_json
          (with_segment hash_json (x ∷ xs) c.progress.state now (record w { checkpoint = k }))
          (republished hash_json w c x xs now k d e b)
        ≡ []
  unfolding republished with_checkpoint with_publication next_progress passed next_state
      new_source_entries with_segment
  none-pending w c x xs now k d e b =
      let (no_receipts, no_events) = none_after hash_json w c x xs e in
      rw (no_receipts, no_events) refl

  recovers-cons :
      (w : World) (c : Consistent hash_json w) (now later : ℕ) (x : SourceEntry)
      (xs : List SourceEntry)
      → GivesDigests hash_json
      → pending hash_json w c ≡ x ∷ xs
      → (export_segments hash_json later false
          (outcome hash_json (x ∷ xs) c.progress.state now true w)).0
        ≡ outcome hash_json (x ∷ xs) c.progress.state now false w
  unfolding outcome republished with_checkpoint with_publication next_progress passed next_state
  recovers-cons w c now later x xs d e =
      let state = c.progress.state in
      let segment = with_segment hash_json (x ∷ xs) state now in
      let next = next_state hash_json (x ∷ xs) state now in
      let (k, only, b) = write_checkpoint-only state w c.behind in
      let w' : World = segment (record w { checkpoint = k }) in
      let c' = republished hash_json w c x xs now k d e b in
      let again = export-none w' c' later false d (none-pending w c x xs now k d e b) in
      ap (λ v. (export_segments hash_json later false (segment v)).0) only
      ∙ again
      ∙ ap (λ v. write_checkpoint next (segment v)) (sym only)

  -- Where SHA-256 gives digests, after receipts and events were committed under growing positive
  -- ids and exports ran, an export that is cut off between publication and checkpoint and then
  -- runs again leaves the very tables and files of an export that was not cut off.
  pub crash_recovers :
      (w : World) (now later : ℕ)
      → GivesDigests hash_json
      → Steps hash_json empty_world w
      → (export_segments hash_json later false (export_segments hash_json now true w).0).0
        ≡ (export_segments hash_json now false w).0
  unfolding outcome
  crash_recovers w now later d s =
      let c = Steps-Consistent hash_json w d s in
      rw (export_segments-exact hash_json w c now true d)
        (rw (export_segments-exact hash_json w c now false d) (go c (pending hash_json w c) refl))
    where
      go :
          (c : Consistent hash_json w) (es : List SourceEntry)
          → pending hash_json w c ≡ es
          → (export_segments hash_json later false
              (outcome hash_json es c.progress.state now true w)).0
            ≡ outcome hash_json es c.progress.state now false w
      go c [] e = recovers-nil w c now later d e
      go c (x ∷ xs) e = recovers-cons w c now later x xs d e
