-- ===== src/Retention/Inspection/Sound.antt =====
-- What a check that reports no issue has found (`check_journal` of
-- src/sutradhara/retention_journal.py).
use sutradhara.Prelude.{
  ℕ, ◌≤◌, ◌≡◌, refl, ◌∙◌, sym, subst, ap, ◌>>=◌, inl, inr, ◌⊎◌, Bool, true, false, Option, none,
  some, List, [], ◌∷◌, ◌++◌, All, length, arith, ok, err, ok-injective, Result-cases,
}
use sutradhara.Prelude.Dict.{lookup}
use sutradhara.Retention.Journal.{HashJson, Journal, JournalState, JournalError, SegmentPath}
use sutradhara.Retention.Directory.{
  Listed, Progress, start, published_segments, published_state, walk_segments,
}
use sutradhara.Retention.Export.{World, Checkpoint, is_ahead}
use sutradhara.Retention.Shipping.{key_eq, Destination, Content, anchor_key, anchor_of}
use sutradhara.Retention.Inspection.{
  Copy, Mismatch, Issue, JournalCheckResult, compare_offbox, last_of, offbox, check_journal,
  listing, listing_issues, walk_issues, ahead_issues, none_found, projection_mismatches,
}
use sutradhara.Retention.Inspection.Agreeing.{
  append_empty, Agrees, Superseded, Receipted, projection_mismatches-empty,
}
use sutradhara.Retention.Inspection.Comparing.{Mirrored, compare_offbox-same}

-- The checkpoint, if there is one, is not past the files.
abbrev pub NotAhead : Option Checkpoint → ℕ → Type 0
NotAhead none sequence = Unit {0}
NotAhead (some row) sequence = row.global_sequence ≤ sequence

is_ahead-NotAhead :
    (k : Option Checkpoint) (s : JournalState) → is_ahead k s ≡ false → NotAhead k s.global_sequence
unfolding is_ahead
is_ahead-NotAhead none s h = tt
is_ahead-NotAhead (some row) s h = ground arith

module _ (hash_json : HashJson) where
  none_found-empty :
      (is : List Issue) (ms : List Mismatch)
      → none_found hash_json is ms ≡ true
      → (is ≡ []) × (ms ≡ [])
  none_found-empty [] [] h = (refl, refl)
  none_found-empty (i ∷ is) ms h = absurd (ground arith)
  none_found-empty [] (m ∷ ms) h = absurd (ground arith)

  -- What such a check has found.
  pub record Passed (w : World) (copies : List Copy) (d : Destination) (r : JournalCheckResult)
      : Type 0 where
    pub segments : List Listed
    pub progress : Progress
    pub state : JournalState
    pub anchor : Content
    pub first : Listed
    pub rest : List Listed
    pub some_files : segments ≡ first ∷ rest
    pub listed : published_segments hash_json w.files ≡ ok segments
    pub walked : walk_segments hash_json segments start ≡ ok (progress, none)
    pub stated : published_state hash_json segments ≡ ok state
    pub not_ahead : NotAhead w.checkpoint state.global_sequence
    pub mirrored : All (Mirrored d) segments
    pub is_anchor : anchor_of hash_json (last_of first rest) ≡ ok anchor
    pub anchored : lookup (anchor_key (last_of first rest).0.path) d.objects ≡ some anchor
    pub agree : All (λ q. Agrees copies q ⊎ Superseded w.receipts q) w.receipts
    pub receipted : All (Receipted w.receipts) copies
    pub compared : r.offbox_compared ≡ true
    pub file_count : r.file_count ≡ length segments
    pub entry_count : r.entry_count ≡ progress.entries

  abbrev result_of :
      World
      → List Copy
      → Journal (List Listed)
      → Progress
      → Option (SegmentPath × JournalError)
      → List Issue
      → Bool
      → JournalState
      → JournalCheckResult
  result_of w copies listed p fault found compared state =
      let issues =
        listing_issues hash_json listed
        ++ walk_issues hash_json fault
        ++ found
        ++ ahead_issues hash_json (is_ahead w.checkpoint state) in
      let mismatches = projection_mismatches w.receipts copies in
      record {
        is_ok = none_found hash_json issues mismatches;
        file_count = length (listing hash_json listed);
        entry_count = p.entries;
        state = p.state;
        offbox_compared = compared;
        issues = issues;
        mismatches = mismatches;
      }

  -- The result, from what its three readings give.
  check_journal-result :
      (w : World) (copies : List Copy) (destination : Option Destination) (p : Progress)
      (fault : Option (SegmentPath × JournalError)) (found : List Issue) (compared : Bool)
      (state : JournalState)
      → walk_segments hash_json (listing hash_json (published_segments hash_json w.files)) start
        ≡ ok (p, fault)
      → offbox hash_json (listing hash_json (published_segments hash_json w.files)) destination
        ≡ ok (found, compared)
      → published_state hash_json (listing hash_json (published_segments hash_json w.files))
        ≡ ok state
      → check_journal hash_json w copies destination
        ≡ ok
            (result_of w copies (published_segments hash_json w.files) p fault found compared state)
  unfolding check_journal
  check_journal-result w copies destination p fault found compared state walked off stated =
      rw (walked, off, stated) refl

  offbox-inv :
      (l : Listed) (ls : List Listed) (d : Destination) (found : List Issue) (compared : Bool)
      → offbox hash_json (l ∷ ls) (some d) ≡ ok (found, compared)
      → (anchor : Content) × (anchor_of hash_json (last_of l ls) ≡ ok anchor)
        × (compare_offbox (l ∷ ls) (last_of l ls) anchor d ≡ (found, compared))
  unfolding offbox
  offbox-inv l ls d found compared h = elim (Result-cases (anchor_of hash_json (last_of l ls))) [
    | inr (e, failed) ↦ absurd (ground arith)
    | inl (anchor, made) ↦ (
      anchor,
      made,
      ok-injective _ _
          (sym (ap (λ r. r >>= λ x. ok (compare_offbox (l ∷ ls) (last_of l ls) x d)) made) ∙ h),
    )
  ]

  ahead_none : (b : Bool) → ahead_issues hash_json b ≡ [] → b ≡ false
  ahead_none true e = absurd (ground arith)
  ahead_none false e = refl

  result_of-Passed :
      (w : World) (copies : List Copy) (d : Destination) (p : Progress)
      (fault : Option (SegmentPath × JournalError)) (found : List Issue) (compared : Bool)
      (state : JournalState) (listed : Journal (List Listed))
      → published_segments hash_json w.files ≡ listed
      → walk_segments hash_json (listing hash_json listed) start ≡ ok (p, fault)
      → offbox hash_json (listing hash_json listed) (some d) ≡ ok (found, compared)
      → published_state hash_json (listing hash_json listed) ≡ ok state
      → (result_of w copies listed p fault found compared state).is_ok ≡ true
      → Passed w copies d (result_of w copies listed p fault found compared state)
  result_of-Passed w copies d p fault found compared state (err x) e walked off stated fine =
      absurd (ground arith)
  result_of-Passed w copies d p fault found compared state (ok []) e walked off stated fine =
      absurd (ground arith)
  result_of-Passed w copies d p (some fault) found compared state (ok (l ∷ ls)) e walked off stated
        fine =
      absurd (ground arith)
  result_of-Passed w copies d p none found compared state (ok (l ∷ ls)) e walked off stated fine =
      let (no_issue, no_mismatch) =
        none_found-empty (found ++ ahead_issues hash_json (is_ahead w.checkpoint state))
          (projection_mismatches w.receipts copies) fine in
      let (none_found', none_ahead) = append_empty found _ no_issue in
      let (anchor, is_anchor, same) = offbox-inv l ls d found compared off in
      let none_off : (compare_offbox (l ∷ ls) (last_of l ls) anchor d).0 ≡ [] =
        ap (λ r. r.0) same ∙ none_found' in
      let (mirrored, anchored, made) =
        compare_offbox-same (l ∷ ls) (last_of l ls) anchor d none_off in
      let (agree, receipted) = projection_mismatches-empty w.receipts copies no_mismatch in
      record {
        segments = l ∷ ls;
        progress = p;
        state = state;
        anchor = anchor;
        first = l;
        rest = ls;
        some_files = refl;
        listed = e;
        walked = walked;
        stated = stated;
        not_ahead =
            is_ahead-NotAhead w.checkpoint state
              (ahead_none (is_ahead w.checkpoint state) none_ahead);
        mirrored = mirrored;
        is_anchor = is_anchor;
        anchored = anchored;
        agree = agree;
        receipted = receipted;
        compared = sym (ap (λ r. r.1) same) ∙ made;
        file_count = refl;
        entry_count = refl;
      }

  -- A check against a destination that returns without an issue or a mismatch has found at least
  -- one file; the files list and walk without an issue, the checkpoint is not past them, each
  -- segment has an object with its bytes off-box, and the last one an object with its anchor;
  -- every receipt is superseded by a later one of its copy, or its copy is there with the
  -- receipt's backend, digests and time, and every copy with measured evidence has a receipt. The
  -- off-box copy was compared, and all files and entries were counted.
  pub check_journal-Passed :
      (w : World) (copies : List Copy) (d : Destination) (r : JournalCheckResult)
      → check_journal hash_json w copies (some d) ≡ ok r
      → r.is_ok ≡ true
      → Passed w copies d r
  check_journal-Passed w copies d r h fine =
      let listed = published_segments hash_json w.files in
      elim (Result-cases (walk_segments hash_json (listing hash_json listed) start)) [
        | inr (e, failed) ↦ absurd (unfold check_journal in ground arith)
        | inl ((p, fault), walked) ↦
            elim (Result-cases (offbox hash_json (listing hash_json listed) (some d))) [
              | inr (e, failed) ↦ absurd (unfold check_journal in ground arith)
              | inl ((found, compared), off) ↦
                  elim (Result-cases (published_state hash_json (listing hash_json listed))) [
                    | inr (e, failed) ↦ absurd (unfold check_journal in ground arith)
                    | inl (state, stated) ↦
                        let result = result_of w copies listed p fault found compared state in
                        let same : r ≡ result = ok-injective r result (
                          sym h
                          ∙ check_journal-result w copies (some d) p fault found compared state
                              walked off stated) in
                        subst (Passed w copies d) (sym same) (
                          result_of-Passed w copies d p fault found compared state listed refl
                            walked off stated (ap (λ x. x.is_ok) (sym same) ∙ fine))
                  ]
            ]
      ]
