-- ===== src/Retention/Export/Outcome.antt =====
-- What an export does from a consistent world (`_export_locked` of
-- src/sutradhara/retention_journal.py): it cannot fail unless its hook does.
use sutradhara.Prelude.{
  ℕ, ◌≡◌, refl, sym, subst, Bool, List, [], ◌∷◌, ◌++◌, length, arith, ok, err, if◌then◌else◌,
}
use sutradhara.Retention.Journal.{
  JournalState, Segment, HashJson, Journal, crashed, validate_footer,
}
use sutradhara.Retention.Publishing.{SourceEntry, new_footer, new_segment, publish_segment}
use sutradhara.Retention.Directory.{Listed}
use sutradhara.Retention.Export.{
  World, Published, new_source_entries, write_checkpoint, conclude_export, publish_entries,
  published, export_from, export_segments,
}
use sutradhara.Retention.Export.Publication.{next_state, state-new_footer}
use sutradhara.Retention.Export.Listing.{read-new_segment}
use sutradhara.Retention.Export.Sound.{FilesBegun, path-FilesBegun}
use sutradhara.Retention.Export.Consistent.{GivesDigests, Consistent, valid-pending}

module _ (hash_json : HashJson) where
  -- The world after a publication of entries at a time.
  unfoldable pub with_segment : List SourceEntry → JournalState → ℕ → World → World
  with_segment xs state now w = record w {
    files = w.files ++ new_segment hash_json xs state now ∷ [];
  }

  unfoldable pub outcome : List SourceEntry → JournalState → ℕ → Bool → World → World
  unfolding with_segment write_checkpoint next_state
  outcome [] state now crash w = write_checkpoint state w
  outcome (x ∷ xs) state now crash w =
      let w' = with_segment (x ∷ xs) state now (write_checkpoint state w) in
      if crash then w' else write_checkpoint (next_state hash_json (x ∷ xs) state now) w'

  -- What the caller gets.
  unfoldable pub answer :
      List SourceEntry → List Listed → JournalState → ℕ → Bool → Journal Published
  unfolding next_state new_segment new_footer
  answer [] ss state now crash = ok (record { entry_count = 0; segments = ss; state = state })
  answer (x ∷ xs) ss state now crash =
      if crash
      then err crashed
      else ok (record {
        entry_count = length (x ∷ xs);
        segments =
            ss
            ++ (new_segment hash_json (x ∷ xs) state now, new_footer hash_json (x ∷ xs) state now)
              ∷ [];
        state = next_state hash_json (x ∷ xs) state now;
      })

  publish_segment-ok :
      (files : List Segment) (state : JournalState) (xs : List SourceEntry) (now : ℕ)
      → FilesBegun state.global_sequence files
      → validate_footer hash_json (new_footer hash_json xs state now) ≡ ok tt
      → publish_segment hash_json files xs state now
        ≡ ok (new_segment hash_json xs state now, next_state hash_json xs state now)
  unfolding publish_segment
  publish_segment-ok files state xs now b v =
      let s = new_segment hash_json xs state now in
      rw
        (
          path-FilesBegun state.global_sequence files s b (omega arith),
          state-new_footer hash_json xs state now v,
        )
        refl

  write_checkpoint-files : (s : JournalState) (w : World) → (write_checkpoint s w).files ≡ w.files
  unfolding write_checkpoint
  write_checkpoint-files s w = ground arith

  conclude_export-exact :
      (x : SourceEntry) (xs : List SourceEntry) (ss : List Listed) (state : JournalState) (now : ℕ)
      (crash : Bool) (w : World)
      → validate_footer hash_json (new_footer hash_json (x ∷ xs) state now) ≡ ok tt
      → conclude_export hash_json
          (x ∷ xs)
          ss
          crash
          (new_segment hash_json (x ∷ xs) state now)
          (next_state hash_json (x ∷ xs) state now)
          (with_segment (x ∷ xs) state now (write_checkpoint state w))
        ≡ (outcome (x ∷ xs) state now crash w, answer (x ∷ xs) ss state now crash)
  unfolding conclude_export outcome answer
  conclude_export-exact x xs ss state now crash w v =
      rw (read-new_segment hash_json (x ∷ xs) state now v, conclude_export) (ground arith)

  publish_entries-exact :
      (es : List SourceEntry) (ss : List Listed) (state : JournalState) (now : ℕ) (crash : Bool)
      (w : World)
      → FilesBegun state.global_sequence w.files
      → ((x : SourceEntry) (xs : List SourceEntry)
          → es ≡ x ∷ xs
          → validate_footer hash_json (new_footer hash_json (x ∷ xs) state now) ≡ ok tt)
      → publish_entries hash_json es ss state now crash (write_checkpoint state w)
        ≡ (outcome es state now crash w, answer es ss state now crash)
  unfolding publish_entries outcome answer with_segment
  publish_entries-exact [] ss state now crash w b v = refl
  publish_entries-exact (x ∷ xs) ss state now crash w b v =
      let valid = v x xs refl in
      let files =
        subst (FilesBegun state.global_sequence) (sym (write_checkpoint-files state w)) b in
      rw
        (
          publish_segment-ok (write_checkpoint state w).files state (x ∷ xs) now files valid,
          publish_entries,
        )
        (conclude_export-exact x xs ss state now crash w valid)

  pub published-Consistent :
      (w : World) (c : Consistent hash_json w)
      → published hash_json w.files ≡ ok (c.segments, c.progress.state)
  unfolding published
  published-Consistent w c = rw (c.sound.listed, c.sound.stated) refl

  -- The rows that an export of a consistent world takes.
  abbrev pub pending : (w : World) → Consistent hash_json w → List SourceEntry
  pending w c = new_source_entries w.receipts w.events c.progress.state.cursors

  pub export_segments-exact :
      (w : World) (c : Consistent hash_json w) (now : ℕ) (crash : Bool)
      → GivesDigests hash_json
      → export_segments hash_json now crash w ≡ (
        outcome (pending w c) c.progress.state now crash w,
        answer (pending w c) c.segments c.progress.state now crash,
      )
  unfolding export_segments export_from
  export_segments-exact w c now crash d =
      rw (published-Consistent w c, export_segments, c.behind, export_from)
        (publish_entries-exact (pending w c) c.segments c.progress.state now crash w
          c.sound.files_begun (λ x xs e. valid-pending hash_json w c x xs now d))
