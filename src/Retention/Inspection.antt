-- ===== src/Retention/Inspection.antt =====
-- Checking the journal (`check_journal` and `_projection_mismatches` of
-- src/sutradhara/retention_journal.py).
pub mod Passing
pub mod Agreeing
pub mod Comparing
pub mod Sound
use sutradhara.Prelude.{
  ℕ, zero, suc, Bool, true, false, not, ◌&&◌, ◌||◌, Option, none, some, List, [], ◌∷◌, ◌++◌, map,
  filter, any, all, ltb, length, if◌then◌else◌, ◌==◌, String, nat_eq, string_eq, Result, ok, err,
  ◌>>=◌,
}
use sutradhara.Retention.Rows.{VerifyReceipt}
use sutradhara.Retention.Journal.{
  JournalState, initial_state, SegmentPath, HashJson, Journal, JournalError,
}
use sutradhara.Retention.Directory.{
  Listed, Progress, start, published_segments, published_state, walk_segments,
}
use sutradhara.Retention.Export.{World, is_ahead}
use sutradhara.Retention.Shipping.{
  Destination, Content, segment_bytes, segment_key, anchor_key, read_bytes, content_same, anchor_of,
}

-- The columns of `copy` that the projection compares.
pub record Copy : Type 0 where
  pub id : ℕ
  pub backend_id : ℕ
  pub integrity_hash : String
  pub last_measured_digest : Option String
  pub last_measured_at : Option ℕ

pub data Mismatch : Type 0 where
  missing_copy backend_differs expected_digest_differs measured_digest_differs : ℕ → Mismatch
  measured_time_differs unreceipted : ℕ → Mismatch

abbrev pub same_text : Option String → Option String → Bool
same_text none none = true
same_text none (some b) = false
same_text (some a) none = false
same_text (some a) (some b) = a == b

-- `_same_datetime`
abbrev pub same_datetime : Option ℕ → Option ℕ → Bool
same_datetime none none = true
same_datetime none (some b) = false
same_datetime (some a) none = false
same_datetime (some a) (some b) = a == b

-- The rows of the join with the greatest event id of each copy.
unfoldable pub latest : List VerifyReceipt → List VerifyReceipt
latest rows =
    filter (λ r. not (any (λ s. s.copy_id == r.copy_id && ltb r.event_id s.event_id) rows)) rows

unfoldable pub find_copy : ℕ → List Copy → Option Copy
find_copy id [] = none
find_copy id (c ∷ cs) = let rest = find_copy id cs in if c.id == id then some c else rest

abbrev pub report : Bool → Mismatch → List Mismatch
report fine m = if fine then [] else m ∷ []

abbrev pub expected_at : VerifyReceipt → Option ℕ
expected_at r = elim r.measured_digest [ none ↦ none | some d ↦ some r.at_time ]

-- The checks of one receipt.
unfoldable pub receipt_mismatches : List Copy → VerifyReceipt → List Mismatch
unfolding find_copy
receipt_mismatches copies r = elim (find_copy r.copy_id copies) [
  | none ↦ missing_copy r.event_id ∷ []
  | some c ↦
      report (c.backend_id == r.backend_id) (backend_differs c.id)
      ++ report (c.integrity_hash == r.expected_digest) (expected_digest_differs c.id)
      ++ report (same_text c.last_measured_digest r.measured_digest) (measured_digest_differs c.id)
      ++ report (same_datetime c.last_measured_at (expected_at r)) (measured_time_differs c.id)
]

abbrev pub is_measured : Copy → Bool
is_measured c = elim c.last_measured_digest [
  | some d ↦ true
  | none ↦ elim c.last_measured_at [ some t ↦ true | none ↦ false ]
]

unfoldable pub receipts_mismatches : List Copy → List VerifyReceipt → List Mismatch
unfolding receipt_mismatches
receipts_mismatches copies [] = []
receipts_mismatches copies (r ∷ rs) = receipt_mismatches copies r ++ receipts_mismatches copies rs

-- Copies with measured evidence that no receipt names.
unfoldable pub unreceipted_copies : List VerifyReceipt → List Copy → List Copy
unreceipted_copies rows copies =
    filter (λ c. is_measured c && not (any (λ r. r.copy_id == c.id) rows)) copies

unfoldable pub projection_mismatches : List VerifyReceipt → List Copy → List Mismatch
unfolding latest receipts_mismatches unreceipted_copies
projection_mismatches receipts copies =
    receipts_mismatches copies (latest receipts)
    ++ map (λ c. unreceipted c.id) (unreceipted_copies (latest receipts) copies)

pub data Issue : Type 0 where
  unreadable : JournalError → Issue
  no_published_files : Issue
  in_file : SegmentPath → JournalError → Issue
  no_target : Issue
  segment_differs : SegmentPath → Issue
  anchor_differs : Issue
  offbox_read_failed : JournalError → Issue
  checkpoint_ahead_of_files : Issue

pub record JournalCheckResult : Type 0 where
  pub is_ok : Bool
  pub file_count : ℕ
  pub entry_count : ℕ
  pub state : JournalState
  pub offbox_compared : Bool
  pub issues : List Issue
  pub mismatches : List Mismatch

abbrev pub same_object : Option Content → Content → Bool
same_object none expected = false
same_object (some actual) expected = content_same actual expected

-- The loop that compares the segments, with the issues it found before a read failed.
unfoldable pub compare_segments :
    List Listed → Destination → Destination × List Issue × Option JournalError
unfolding read_bytes content_same
compare_segments [] d = (d, [], none)
compare_segments ((s, f) ∷ ss) d =
    let (d', read) = read_bytes (segment_key s.path) d in
    let (d'', later, failed) = compare_segments ss d' in
    elim read [
      | err e ↦ (d', [], some e)
      | ok actual ↦ (
        d'',
        (if same_object actual (segment_bytes s.lines)
            then later
            else segment_differs s.path ∷ later),
        failed,
      )
    ]

-- The comparison with the off-box copy: its issues, and whether it was made.
unfoldable pub compare_offbox : List Listed → Listed → Content → Destination → List Issue × Bool
unfolding compare_segments
compare_offbox segments latest_segment expected d =
    let (d', found, failed) = compare_segments segments d in
    let (d'', read) = read_bytes (anchor_key latest_segment.0.path) d' in
    elim failed [
      | some e ↦ (found ++ offbox_read_failed e ∷ [], false)
      | none ↦ elim read [
        | err e ↦ (found ++ offbox_read_failed e ∷ [], false)
        | ok actual ↦
            (if same_object actual expected then found else found ++ anchor_differs ∷ [], true)
      ]
    ]

-- `segments[-1]` of a list that is not empty
abbrev pub last_of : Listed → List Listed → Listed
last_of l [] = l
last_of l (k ∷ ks) = last_of k ks

module _ (hash_json : HashJson) where
  unfoldable pub offbox : List Listed → Option Destination → Journal (List Issue × Bool)
  unfolding compare_offbox
  offbox [] d = ok ([], false)
  offbox (l ∷ ls) none = ok (no_target ∷ [], false)
  offbox (l ∷ ls) (some d) = do
    expected ← anchor_of hash_json (last_of l ls)
    ok (compare_offbox (l ∷ ls) (last_of l ls) expected d)

  abbrev pub listing_issues : Journal (List Listed) → List Issue
  listing_issues (err e) = unreadable e ∷ []
  listing_issues (ok []) = no_published_files ∷ []
  listing_issues (ok (l ∷ ls)) = []

  abbrev pub listing : Journal (List Listed) → List Listed
  listing (err e) = []
  listing (ok ls) = ls

  abbrev pub walk_issues : Option (SegmentPath × JournalError) → List Issue
  walk_issues none = []
  walk_issues (some (path, e)) = in_file path e ∷ []

  abbrev pub ahead_issues : Bool → List Issue
  ahead_issues true = checkpoint_ahead_of_files ∷ []
  ahead_issues false = []

  -- `not issues and not projection_mismatches`
  abbrev pub none_found : List Issue → List Mismatch → Bool
  none_found [] [] = true
  none_found (i ∷ is) ms = false
  none_found [] (m ∷ ms) = false

  -- A footer without a time raises out of the check.
  unfoldable pub check_journal : World → List Copy → Option Destination → Journal JournalCheckResult
  unfolding offbox is_ahead projection_mismatches
  check_journal w copies destination = do
    let listed = published_segments hash_json w.files
    let segments = listing listed
    (p, fault) ← walk_segments hash_json segments start
    (found, compared) ← offbox segments destination
    state ← published_state hash_json segments
    let issues =
        listing_issues listed
        ++ walk_issues fault
        ++ found
        ++ ahead_issues (is_ahead w.checkpoint state)
    let mismatches = projection_mismatches w.receipts copies
    ok (record {
      is_ok = none_found issues mismatches;
      file_count = length segments;
      entry_count = p.entries;
      state = p.state;
      offbox_compared = compared;
      issues = issues;
      mismatches = mismatches;
    })
