-- ===== src/Retention/Export/Steps.antt =====
-- Receipts that are committed and exports that run, in any order and with any crash between publication
-- and checkpoint (`_export_locked` of src/sutradhara/retention_journal.py). Ids of both tables are those
-- of SQLite's row ids on append-only tables: each is greater than all before it.
use sutradhara.Prelude.{
  ℕ, ◌<◌, ◌≡◌, refl, sym, subst, Bool, true, false, none, List, [], ◌∷◌, ok, err,
}
use sutradhara.Prelude.Ordering.{Below}
use sutradhara.Retention.Rows.{VerifyReceipt, RetentionEvent}
use sutradhara.Retention.Journal.{HashJson, Journal, is_sha256}
use sutradhara.Retention.Publishing.{SourceEntry}
use sutradhara.Retention.Directory.{start, passed}
use sutradhara.Retention.Directory.Reading.{Read-nil}
use sutradhara.Retention.Export.{
  World, Published, receipt_key, event_key, write_checkpoint, is_ahead, export_segments,
}
use sutradhara.Retention.Export.Cursor.{Journalled, Journalled-nil, Journalled-insert}
use sutradhara.Retention.Export.BySource.{of_source}
use sutradhara.Retention.Export.Publication.{next_state}
use sutradhara.Retention.Export.Sound.{Sound-nil, next_progress}
use sutradhara.Retention.Export.Consistent.{
  GivesDigests, Consistent, with_checkpoint, with_publication, write_checkpoint-only,
  Consistent-write_checkpoint,
}
use sutradhara.Retention.Export.Complete.{Complete, republished, outcome-nil, outcome-cons}
use sutradhara.Retention.Export.Outcome.{
  outcome, answer, with_segment, pending, export_segments-exact,
}

abbrev pub empty_world : World
empty_world = record { receipts = []; events = []; checkpoint = none; files = [] }

module _ (hash_json : HashJson) where
  -- A receipt or an event is committed, or an export runs, with or without a crash.
  pub data Step : World → World → Type 0 where
    receipt :
        (w : World) (r : VerifyReceipt)
        → 0 < r.event_id
        → Below receipt_key r.event_id w.receipts
        → Step w (record w { receipts = r ∷ w.receipts })
    event :
        (w : World) (e : RetentionEvent)
        → 0 < e.event_id
        → Below event_key e.event_id w.events
        → Step w (record w { events = e ∷ w.events })
    export : (w : World) (now : ℕ) (crash : Bool) → Step w (export_segments hash_json now crash w).0

  pub data Steps : World → World → Type 0 where
    done : (w : World) → Steps w w
    more : (u v w : World) → Steps u v → Step v w → Steps u w

  Consistent-empty : Consistent hash_json empty_world
  unfolding of_source is_ahead is_sha256
  Consistent-empty = record {
    segments = [];
    progress = start;
    entries = [];
    receipts_journalled = [];
    events_journalled = [];
    sound = Sound-nil hash_json;
    digest = refl;
    read = Read-nil hash_json start;
    of_receipts = refl;
    of_events = refl;
    receipts = Journalled-nil receipt_key;
    events = Journalled-nil event_key;
    behind = refl;
  }

  outcome-Consistent :
      (w : World) (c : Consistent hash_json w) (now : ℕ) (crash : Bool) (es : List SourceEntry)
      → GivesDigests hash_json
      → pending hash_json w c ≡ es
      → Consistent hash_json (outcome hash_json es c.progress.state now crash w)
  unfolding outcome with_segment republished with_checkpoint with_publication next_progress passed
      next_state
  outcome-Consistent w c now crash [] d e = Consistent-write_checkpoint hash_json w c
  outcome-Consistent w c now true (x ∷ xs) d e =
      let (k, only, b) = write_checkpoint-only c.progress.state w c.behind in
      let segment = with_segment hash_json (x ∷ xs) c.progress.state now in
      subst (λ v. Consistent hash_json (segment v)) (sym only)
        (republished hash_json w c x xs now k d e b)
  outcome-Consistent w c now false (x ∷ xs) d e =
      let (k, only, b) = write_checkpoint-only c.progress.state w c.behind in
      let segment = with_segment hash_json (x ∷ xs) c.progress.state now in
      let next = next_state hash_json (x ∷ xs) c.progress.state now in
      subst (λ v. Consistent hash_json (write_checkpoint next (segment v))) (sym only)
        (Consistent-write_checkpoint hash_json (segment (record w { checkpoint = k }))
          (republished hash_json w c x xs now k d e b))

  export-Consistent :
      (w : World) (now : ℕ) (crash : Bool)
      → GivesDigests hash_json
      → Consistent hash_json w
      → Consistent hash_json (export_segments hash_json now crash w).0
  export-Consistent w now crash d c =
      rw (export_segments-exact hash_json w c now crash d)
        (outcome-Consistent w c now crash (pending hash_json w c) d refl)

  Consistent-rows :
      (w : World) (c : Consistent hash_json w) (rs : List VerifyReceipt) (es : List RetentionEvent)
      → Journalled receipt_key rs c.receipts_journalled c.progress.state.cursors.receipts
      → Journalled event_key es c.events_journalled c.progress.state.cursors.events
      → Consistent hash_json (record w { receipts = rs; events = es })
  Consistent-rows w c rs es j j' = record {
    segments = c.segments;
    progress = c.progress;
    entries = c.entries;
    receipts_journalled = c.receipts_journalled;
    events_journalled = c.events_journalled;
    sound = c.sound;
    digest = c.digest;
    read = c.read;
    of_receipts = c.of_receipts;
    of_events = c.of_events;
    receipts = j;
    events = j';
    behind = c.behind;
  }

  Step-Consistent :
      (w w' : World)
      → GivesDigests hash_json
      → Step w w'
      → Consistent hash_json w
      → Consistent hash_json w'
  Step-Consistent w _ d (receipt _ r positive below) c =
      Consistent-rows w c (r ∷ w.receipts) w.events
        (Journalled-insert receipt_key r w.receipts c.receipts_journalled
          c.progress.state.cursors.receipts positive below c.receipts)
        c.events
  Step-Consistent w _ d (event _ e positive below) c =
      Consistent-rows w c w.receipts (e ∷ w.events) c.receipts (
        Journalled-insert event_key e w.events c.events_journalled c.progress.state.cursors.events
          positive below c.events)
  Step-Consistent w _ d (export _ now crash) c = export-Consistent w now crash d c

  -- From an empty catalog and directory, every world that is reached is consistent.
  pub Steps-Consistent :
      (w : World) → GivesDigests hash_json → Steps empty_world w → Consistent hash_json w
  Steps-Consistent w d s = go empty_world w s Consistent-empty
    where
      go : (u v : World) → Steps u v → Consistent hash_json u → Consistent hash_json v
      go u _ (done _) c = c
      go u v (more _ t _ r s) c = Step-Consistent t v d s (go u t r c)

  -- What an export without a crash leaves.
  export-Complete :
      (w : World) (c : Consistent hash_json w) (now : ℕ)
      → GivesDigests hash_json
      → Complete hash_json (export_segments hash_json now false w).0
  export-Complete w c now d =
      rw (export_segments-exact hash_json w c now false d) (go (pending hash_json w c) refl)
    where
      go :
          (es : List SourceEntry)
          → pending hash_json w c ≡ es
          → Complete hash_json (outcome hash_json es c.progress.state now false w)
      go [] e = outcome-nil hash_json w c now false e
      go (x ∷ xs) e = outcome-cons hash_json w c now x xs d e

  -- The export returns.
  unfoldable pub answers : Journal Published → Bool
  answers (ok p) = true
  answers (err e) = false

  export-answers :
      (w : World) (c : Consistent hash_json w) (now : ℕ)
      → GivesDigests hash_json
      → answers (export_segments hash_json now false w).1 ≡ true
  unfolding answer answers
  export-answers w c now d =
      rw (export_segments-exact hash_json w c now false d) (go (pending hash_json w c))
    where
      go :
          (es : List SourceEntry)
          → answers (answer hash_json es c.segments c.progress.state now false) ≡ true
      go [] = refl
      go (x ∷ xs) = refl

  -- Where SHA-256 gives digests: after receipts and events were committed under growing positive
  -- ids and exports ran, in any order and with any of them cut off between publication and
  -- checkpoint, an export that is not cut off returns, and leaves a directory that lists and walks
  -- without an issue, and that holds every row of both tables exactly once, in the order of the
  -- ids; its checkpoint is not ahead of it.
  pub export_exact :
      (w : World) (now : ℕ)
      → GivesDigests hash_json
      → Steps empty_world w
      → (answers (export_segments hash_json now false w).1 ≡ true)
        × Complete hash_json (export_segments hash_json now false w).0
  export_exact w now d s =
      let c = Steps-Consistent w d s in (export-answers w c now d, export-Complete w c now d)
