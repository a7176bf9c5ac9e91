-- ===== src/Retention/Inspection/Passing.antt =====
-- A check that finds nothing (`check_journal` of src/sutradhara/retention_journal.py).
use sutradhara.Prelude.{
  ℕ, suc, ◌+◌, ◌-◌, ◌<◌, ◌≡◌, refl, ap, true, none, some, List, [], ◌∷◌, All, length, arith, ok,
}
use sutradhara.Retention.Journal.{HashJson}
use sutradhara.Retention.Directory.{Listed}
use sutradhara.Retention.Export.{World}
use sutradhara.Retention.Export.Complete.{Complete}
use sutradhara.Retention.Shipping.{Destination, segment_bytes}
use sutradhara.Retention.Shipping.Arriving.{Objects, Arrived}
use sutradhara.Retention.Shipping.Anchors.{content_same_refl}
use sutradhara.Retention.Inspection.{
  Copy, projection_mismatches, compare_segments, compare_offbox, last_of, offbox, check_journal,
  listing_issues,
}

module _ (hash_json : HashJson) where
  -- Where all has arrived and the destination answers, no segment differs.
  compare_segments-Arrived :
      (ss : List Listed) (d : Destination)
      → All (Arrived hash_json d.objects) ss
      → (n : ℕ) → d.calls ≡ length ss + n
      → compare_segments ss d ≡ (record d { calls = n }, [], none)
  unfolding compare_segments
  compare_segments-Arrived [] d a n e =
      let same : d.calls ≡ n = omega arith in ap (λ m. (record d { calls = m }, [], none)) same
  compare_segments-Arrived ((s, f) ∷ ss) d (a, as') n e =
      let d' : Destination = record d { calls = length ss + n } in
      ground (
        arith,
        compare_segments-Arrived ss d' as' n refl,
        a.bytes,
        content_same_refl (segment_bytes s.lines),
      )

  last-Arrived :
      (o : Objects) (l : Listed) (ls : List Listed)
      → Arrived hash_json o l
      → All (Arrived hash_json o) ls
      → Arrived hash_json o (last_of l ls)
  last-Arrived o l [] a all = a
  last-Arrived o l (k ∷ ks) a (b, all) = last-Arrived o k ks b all

  compare_offbox-Arrived :
      (ss : List Listed) (l : Listed) (d : Destination) (n : ℕ) (a : Arrived hash_json d.objects l)
      → All (Arrived hash_json d.objects) ss
      → d.calls ≡ length ss + suc n
      → compare_offbox ss l a.anchor d ≡ ([], true)
  unfolding compare_offbox
  compare_offbox-Arrived ss l d n a all e =
      ground
        (arith, compare_segments-Arrived ss d all (suc n) e, a.head, content_same_refl a.anchor)

  pub offbox-Arrived :
      (ss : List Listed) (d : Destination)
      → 0 < length ss
      → All (Arrived hash_json d.objects) ss
      → length ss < d.calls
      → offbox hash_json ss (some d) ≡ ok ([], true)
  unfolding offbox
  offbox-Arrived [] d l all m = absurd (omega arith)
  offbox-Arrived (k ∷ ks) d l (a, all) m =
      let last = last-Arrived d.objects k ks a all in
      let n = d.calls - suc (suc (length ks)) in
      let same = compare_offbox-Arrived (k ∷ ks) (last_of k ks) d n last (a, all) (omega arith) in
      rw (last.is_anchor) (ap ok same)

  some_listed : (ss : List Listed) → 0 < length ss → listing_issues hash_json (ok ss) ≡ []
  some_listed [] l = absurd (omega arith)
  some_listed (k ∷ ks) l = refl

  -- Where a journal is complete and not empty, all its segments have arrived off-box with their
  -- anchors, the destination answers one call for each segment and one more, and the copies agree
  -- with their latest receipts: a check finds no issue, compares the off-box copy, and counts all
  -- files.
  pub check_journal-passes :
      (w : World) (copies : List Copy) (d : Destination) (c : Complete hash_json w)
      → 0 < length c.segments
      → All (Arrived hash_json d.objects) c.segments
      → length c.segments < d.calls
      → projection_mismatches w.receipts copies ≡ []
      → check_journal hash_json w copies (some d)
        ≡ ok (record {
          is_ok = true;
          file_count = length c.segments;
          entry_count = c.progress.entries;
          state = c.progress.state;
          offbox_compared = true;
          issues = [];
          mismatches = [];
        })
  unfolding check_journal
  check_journal-passes w copies d c some_files all calls agree =
      rw
        (
          c.listed,
          c.walked,
          offbox-Arrived c.segments d some_files all calls,
          c.stated,
          c.not_ahead,
          agree,
        )
        (rw (some_listed c.segments some_files) refl)
