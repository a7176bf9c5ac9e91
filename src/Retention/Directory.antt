-- ===== src/Retention/Directory.antt =====
-- The published segments of a directory, and the walk over all of them (`_published_segments` and the
pub mod Aligned
pub mod Reading
pub mod Evidence
-- loop of `check_journal` in src/sutradhara/retention_journal.py). `glob` lists the files in any order.
use sutradhara.Prelude.{
  ℕ, suc, ◌+◌, Bool, Option, none, some, List, [], ◌∷◌, leb, if◌then◌else◌, ◌==◌, String, nat_eq,
  Result, ok, err, ◌>>=◌, ◌>>◌, guard, or_raise,
}
use sutradhara.Retention.Journal.{
  Cursors, SegmentPath, JournalState, initial_state, Footer, Segment, HashJson, Journal,
  JournalError, holds, genesis_hash, state_from_footer, read_footer, not_an_integer,
  filename_footer_mismatch, range_discontinuity,
}
use sutradhara.Retention.Walking.{Walk, check_segment}

abbrev pub Listed : Type 0
Listed = Segment × Footer

-- `_integer(footer["segment_start_sequence"])`, which `_validate_footer` has passed
abbrev pub number : Option ℕ → ℕ
number none = 0
number (some n) = n

abbrev pub start_of : Listed → ℕ
start_of (s, f) = number f.base.segment_start_sequence

abbrev pub end_of : Listed → ℕ
end_of (s, f) = number f.base.global_sequence

-- `segments.sort(key=...)`, which is stable
unfoldable pub insert_segment : Listed → List Listed → List Listed
insert_segment s [] = s ∷ []
insert_segment s (t ∷ ts) =
    let rest = insert_segment s ts in if leb (start_of t) (start_of s) then t ∷ rest else s ∷ t ∷ ts

unfoldable pub sort_segments : List Listed → List Listed → List Listed
unfolding insert_segment
sort_segments [] sorted = sorted
sort_segments (s ∷ ss) sorted = sort_segments ss (insert_segment s sorted)

-- The loop over `pairwise(segments)`.
unfoldable pub check_ranges : List Listed → Journal (Unit {0})
check_ranges [] = ok tt
check_ranges (s ∷ []) = ok tt
check_ranges (s ∷ t ∷ ts) = do
  guard (start_of t == suc (end_of s)) range_discontinuity
  check_ranges (t ∷ ts)

-- The variables of the loop of `check_journal`.
pub record Progress : Type 0 where
  pub expected_sequence : ℕ
  pub expected_hash : String
  pub cursors : Cursors
  pub entries : ℕ
  pub state : JournalState

abbrev pub start : Progress
start = record {
  expected_sequence = 1;
  expected_hash = genesis_hash;
  cursors = record { receipts = 0; events = 0 };
  entries = 0;
  state = initial_state;
}

module _ (hash_json : HashJson) where
  unfoldable pub list_segment : Segment → Journal Listed
  list_segment s = do
    f ← read_footer hash_json s
    start' ← or_raise f.base.segment_start_sequence not_an_integer
    end' ← or_raise f.base.global_sequence not_an_integer
    guard (s.path.first_sequence == start') filename_footer_mismatch
    guard (s.path.last_sequence == end') filename_footer_mismatch
    ok (s, f)

  unfoldable pub list_segments : List Segment → Journal (List Listed)
  unfolding list_segment
  list_segments [] = ok []
  list_segments (s ∷ ss) = do l ← list_segment s; ls ← list_segments ss; ok (l ∷ ls)

  unfoldable pub published_segments : List Segment → Journal (List Listed)
  unfolding list_segments sort_segments check_ranges
  published_segments files = do
    segments ← list_segments files
    let sorted = sort_segments segments []
    check_ranges sorted
    ok sorted

  -- `segments[-1]`, as the state that its footer names, or the initial state
  unfoldable pub published_state : List Listed → Journal JournalState
  published_state [] = ok initial_state
  published_state ((s, f) ∷ []) = state_from_footer hash_json f s.path
  published_state (s ∷ t ∷ ts) = published_state (t ∷ ts)

  unfoldable pub passed : Progress → Walk → JournalState → Progress
  passed p w state = record {
    expected_sequence = w.expected_sequence;
    expected_hash = w.expected_hash;
    cursors = w.cursors;
    entries = p.entries + w.entry_count;
    state = state;
  }

  -- The first file at fault is an issue and ends the loop; a footer without a time raises.
  unfoldable pub walk_segments :
      List Listed → Progress → Journal (Progress × Option (SegmentPath × JournalError))
  unfolding passed
  walk_segments [] p = ok (p, none)
  walk_segments ((s, f) ∷ ss) p =
      elim (check_segment hash_json s.lines p.expected_sequence p.expected_hash p.cursors) [
        | err e ↦ ok (p, some (s.path, e))
        | ok (w, g) ↦ do
          state ← state_from_footer hash_json g s.path
          walk_segments ss (passed p w state)
      ]
