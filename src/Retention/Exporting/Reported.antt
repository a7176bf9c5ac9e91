-- ===== src/Retention/Exporting/Reported.antt =====
-- What an export does as a whole (`export_journal` of src/sutradhara/retention_journal.py).
use sutradhara.Prelude.{
  sym, subst, ltb, if◌then◌else◌, Result, ℕ, ◌∙◌, ◌≡◌, refl, Bool, false, Option, none, List, [],
  ◌∷◌, length, filter, String, ok, arith, ap, ◌+◌, ◌&&◌,
}
use sutradhara.Prelude.Ordering.{past}
use sutradhara.Jobs.Conditions.{Conditions}
use sutradhara.Retention.Rows.{VerifyReceipt, RetentionEvent}
use sutradhara.Retention.Journal.{JournalState, HashJson, JournalError}
use sutradhara.Retention.Export.{
  World, Published, receipt_key, event_key, new_source_entries, published, export_segments,
}
use sutradhara.Retention.Export.Consistent.{GivesDigests}
use sutradhara.Retention.Export.Steps.{Steps, empty_world, Steps-Consistent}
use sutradhara.Retention.Export.Drained.{export_segments-Drained}
use sutradhara.Retention.Shipping.{Compare, Destination}
use sutradhara.Retention.Status.{
  JournalOperationalStatus, Setting, stale_threshold, status_of, earliest, earlier_of, is_some,
  journal_operational_status, project_journal_alarm, refresh_staleness_alarm,
}
use sutradhara.Retention.Status.Pending.{status_of-exact}
use sutradhara.Retention.Exporting.Attempts.{Attempted, attempt_shipping-Attempted}
use sutradhara.Retention.Exporting.Notices.{Alarms, Alarms-of}
use sutradhara.Retention.Export.Outcome.{published-Consistent}
use sutradhara.Retention.Directory.{Listed}
use sutradhara.Jobs.Conditions.Keys.{IsTable}
use sutradhara.Retention.Exporting.{
  ExportError, JournalExportResult, is_failed, shipping_message, Site, attempt_shipping,
  project_export, report, refresh_at_end, report_export, export_locked, export_journal,
}

-- Without rows there is no oldest one.
none_oldest :
    (rs : List VerifyReceipt) (es : List RetentionEvent) (old : Bool)
    → length rs + length es ≡ 0
    → is_some (earlier_of (earliest (λ r. r.at_time) rs) (earliest (λ e. e.at_time) es)) && old
      ≡ false
unfolding earliest
none_oldest [] [] old e = refl
none_oldest [] (x ∷ es) old e = absurd (omega arith)
none_oldest (r ∷ rs) es old e = absurd (omega arith)

-- With no row left to export, the export is not stale.
status_of-fresh :
    (state : JournalState) (threshold now : ℕ) (w : World)
    → new_source_entries w.receipts w.events state.cursors ≡ []
    → (status_of state threshold now w).stale ≡ false
unfolding status_of
status_of-fresh state threshold now w none_left =
    none_oldest (filter (past receipt_key state.cursors.receipts) w.receipts)
      (filter (past event_key state.cursors.events) w.events) _
      (omega (arith, (status_of-exact state threshold now w).0, ap length none_left))

module _ (hash_json : HashJson) (c : Compare) (text : JournalError → String)
    (message : JournalOperationalStatus → String) (setting : Setting) (clock now : ℕ) where
  export_journal-report :
      (site : Site) (p : Published)
      → (export_segments hash_json now false site.world).1 ≡ ok p
      → export_journal hash_json c text message setting clock now false false site
        ≡ report_export hash_json c text message setting clock now p
            (export_segments hash_json now false site.world).0
            site.conditions
            site.destination
  unfolding export_journal export_locked
  export_journal-report site p returned = cc returned

  -- The end of an export that has published everything.
  report_export-fresh :
      (p : Published) (threshold : ℕ) (w : World) (t : Conditions) (d : Option Destination)
      → stale_threshold none setting ≡ ok threshold
      → published hash_json w.files ≡ ok (p.segments, p.state)
      → (status_of p.state threshold now w).stale ≡ false
      → let s = attempt_shipping hash_json c text p.segments d in
        report_export hash_json c text message setting clock now p w t d ≡ (
          record {
            world = w;
            conditions =
                project_journal_alarm clock "export-stale" false "export-stale"
                  (message (status_of p.state threshold now w))
                  (project_journal_alarm clock "shipping-failed"
                    (is_failed s.error)
                    "shipping-failed"
                    (shipping_message s.error)
                    (project_journal_alarm clock "export-failed" false "export-failed"
                      "retention journal export succeeded" t));
            destination = s.destination;
          },
          ok (report p s),
        )
  unfolding report_export project_export refresh_at_end refresh_staleness_alarm
      journal_operational_status
  report_export-fresh p threshold w t d set directory calm = ground (arith, set, directory, calm)

  -- The outcome of an export. What it published leaves no row to export, and it counts the rows that
  -- were past the directory before; the destination, the count and the error are those of an attempt
  -- to ship the published segments; the alarms say so, and no condition of another domain changes.
  pub record Reported (w : World) (t : Conditions) (d : Option Destination)
      (out : Site × Result ExportError JournalExportResult) : Type 0 where
    pub p : Published
    pub exported : export_segments hash_json now false w ≡ (out.0.world, ok p)
    pub directory : published hash_json out.0.world.files ≡ ok (p.segments, p.state)
    pub none_left : new_source_entries out.0.world.receipts out.0.world.events p.state.cursors ≡ []
    pub before : List Listed × JournalState
    pub directory_before : published hash_json w.files ≡ ok before
    pub res : JournalExportResult
    pub returned : out.1 ≡ ok res
    pub state : res.state ≡ p.state
    pub entry_count :
        res.entry_count ≡ length (new_source_entries w.receipts w.events before.1.cursors)
    pub is_new : res.published ≡ ltb 0 res.entry_count
    pub segment : res.segment ≡ (if ltb 0 res.entry_count then p.state.published_filename else none)
    pub attempted : Attempted hash_json c text p.segments d (record {
      destination = out.0.destination;
      shipped = res.shipped_segments;
      error = res.shipping_error;
    })
    pub alarms : Alarms res.shipping_error t out.0.conditions

  -- Where SHA-256 gives digests, the configured threshold is valid, and the condition table has
  -- unique ids and keys: after receipts and events were committed under growing positive ids and
  -- exports ran, an export that finds its lock free and is not cut off returns, whatever the
  -- destination does. It leaves the tables and the files of the publication, with no row left to
  -- export, and counts the rows that it published; with files to ship and no destination, or one
  -- that fails, it gives the error and no count, and else the count of shipped segments. The alarm
  -- of a failed shipping is open with that error just where there is one, the alarms of a failed
  -- and of a stale export are satisfied, and no condition of another domain changes.
  pub export_journal-Reported :
      (threshold : ℕ) (w : World) (t : Conditions) (d : Option Destination)
      → GivesDigests hash_json
      → stale_threshold none setting ≡ ok threshold
      → Steps hash_json empty_world w
      → IsTable t
      → Reported w t d (
          export_journal hash_json c text message setting clock now false false
            (record { world = w; conditions = t; destination = d }))
  unfolding report
  export_journal-Reported threshold w t d digests set steps table =
      let left = (export_segments hash_json now false w).0 in
      let consistent = Steps-Consistent hash_json w digests steps in
      let (p, exported, count, drained) =
        export_segments-Drained hash_json w consistent now digests in
      let calm = status_of-fresh p.state threshold now left drained.none_left in
      let s = attempt_shipping hash_json c text p.segments d in
      let whole =
        export_journal-report (record { world = w; conditions = t; destination = d }) p exported
        ∙ report_export-fresh p threshold left t d set drained.directory calm in
      let alarms = Alarms-of clock s (message (status_of p.state threshold now left)) t table in
      subst (Reported w t d) (sym whole) (record {
        p = p;
        exported = λ i. (left, exported i);
        directory = drained.directory;
        none_left = drained.none_left;
        before = (consistent.segments, consistent.progress.state);
        directory_before = published-Consistent hash_json w consistent;
        res = report p s;
        returned = refl;
        state = refl;
        entry_count = count;
        is_new = ground arith;
        segment = ground arith;
        attempted = attempt_shipping-Attempted hash_json c text p.segments d;
        alarms = alarms;
      })
