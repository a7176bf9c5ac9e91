-- ===== src/Retention/Directory/Aligned.antt =====
-- What a walk without an issue has read (the loop of `check_journal` in
-- src/sutradhara/retention_journal.py): one chain of sealed entries, that the last footer describes.
use sutradhara.Prelude.{
  ℕ, suc, ◌+◌, ◌-◌, ◌≡◌, refl, ap, inl, inr, none, some, List, [], ◌∷◌, ◌++◌, length, arith, String,
  string_eq, nat_eq, ok, Result-cases, Option-cases, true,
}
use sutradhara.Retention.Journal.{
  Cursors, JournalState, Envelope, Footer, SegmentPath, Line, blank, not_json, not_an_object,
  unknown_kind, entry, footer, HashJson, validate_footer, state_from_footer,
}
use sutradhara.Retention.Publishing.{SourceEntry, entry_hash_of, seal_all, final_head}
use sutradhara.Retention.Walking.{Walk, check_lines, check_segment, matches, start_walk}
use sutradhara.Retention.Walking.Checked.{holds→some}
use sutradhara.Retention.Walking.Lines.{advance_all, AllAcceptable, check_lines-inv}
use sutradhara.Retention.Directory.{Listed, Progress}

-- The state describes the chain that was walked.
pub record Aligned (p : Progress) : Type 0 where
  pub sequence : suc p.state.global_sequence ≡ p.expected_sequence
  pub head : p.state.head_hash ≡ p.expected_hash
  pub cursor : p.state.cursors ≡ p.cursors

-- A footer that describes a walk from `segment_start`.
pub record Matching (f : Footer) (segment_start : ℕ) (w : Walk) : Type 0 where
  pub begins : f.base.segment_start_sequence ≡ some segment_start
  pub counts : f.base.entry_count ≡ some w.entry_count
  pub ends : f.base.global_sequence ≡ some (w.expected_sequence - 1)
  pub heads : f.base.head_hash ≡ some w.expected_hash
  pub covers : f.base.cursors ≡ some (some w.cursors.receipts, some w.cursors.events)

unfoldable pub entry_lines : List Line → List Envelope
entry_lines [] = []
entry_lines (entry e ∷ ls) = e ∷ entry_lines ls
entry_lines (footer f ∷ ls) = entry_lines ls
entry_lines (blank ∷ ls) = entry_lines ls
entry_lines (not_json ∷ ls) = entry_lines ls
entry_lines (not_an_object ∷ ls) = entry_lines ls
entry_lines (unknown_kind ∷ ls) = entry_lines ls

-- The entries of a journal, in order.
unfoldable pub journal_entries : List Listed → List Envelope
unfolding entry_lines
journal_entries [] = []
journal_entries ((s, f) ∷ ss) = entry_lines s.lines ++ journal_entries ss

module _ (hash_json : HashJson) where
  pub matches-inv :
      (f : Footer) (n : ℕ) (w : Walk) → matches hash_json f n w ≡ true → Matching f n w
  unfolding matches
  matches-inv f n w h = elim (Option-cases f.base.cursors) [
    | inl none' ↦ absurd (ground arith)
    | inr ((r, v), e) ↦
        let r' = holds→some r w.cursors.receipts (ground arith) in
        let v' = holds→some v w.cursors.events (ground arith) in
        record {
          begins = holds→some f.base.segment_start_sequence n (ground arith);
          counts = holds→some f.base.entry_count w.entry_count (ground arith);
          ends = holds→some f.base.global_sequence (w.expected_sequence - 1) (ground arith);
          heads = holds→some f.base.head_hash w.expected_hash (ground arith);
          covers = cc;
        }
  ]

  pub matches-of : (f : Footer) (n : ℕ) (w : Walk) → Matching f n w → matches hash_json f n w ≡ true
  unfolding matches
  matches-of f n w m =
      rw (m.begins, m.counts, m.ends, m.heads, m.covers)
        (ground (arith, string_eq.same_iff w.expected_hash w.expected_hash))

  -- A segment that passes from a sequence number, a head and cursors is the sealed lines of some
  -- entries and then one footer: the walk accepts each entry as it was sealed and ends where they
  -- end, and the footer names the first sequence, the number of entries, and the last sequence,
  -- head and cursors of that walk.
  pub check_segment-inv :
      (ls : List Line) (n : ℕ) (h : String) (c : Cursors) (w : Walk) (f : Footer)
      → check_segment hash_json ls n h c ≡ ok (w, f)
      → (xs : List SourceEntry) × (ls ≡ seal_all hash_json xs n h ++ footer f ∷ [])
        × AllAcceptable hash_json xs (start_walk hash_json n h c)
        × (w ≡ advance_all hash_json xs (start_walk hash_json n h c))
        × Matching f n w
  unfolding check_segment
  check_segment-inv ls n h c w f e =
      elim (Result-cases (check_lines hash_json ls (start_walk hash_json n h c) none)) [
        | inr (r, bad) ↦ absurd (ground arith)
        | inl ((v, none), good) ↦ absurd (ground arith)
        | inl ((v, some g), good) ↦
            let read : check_lines hash_json ls (start_walk hash_json n h c) none ≡ ok (w, some f) =
              ground arith in
            let (xs, lines, fits, end) =
              check_lines-inv hash_json ls (start_walk hash_json n h c) w f read in
            (xs, lines, fits, end, matches-inv f n w (ground arith))
      ]

  pub entry_lines-seal_all :
      (xs : List SourceEntry) (n : ℕ) (h : String) (f : Footer)
      → entry_lines (seal_all hash_json xs n h ++ footer f ∷ [])
        ≡ entry_lines (seal_all hash_json xs n h)
  unfolding entry_lines seal_all
  entry_lines-seal_all [] n h f = refl
  entry_lines-seal_all (x ∷ xs) n h f =
      cc (entry_lines-seal_all xs (suc n) (entry_hash_of hash_json x n h) f)

  -- Two runs of entries make one chain.
  pub seals-append :
      (xs ys : List SourceEntry) (n : ℕ) (h : String)
      → entry_lines (seal_all hash_json (xs ++ ys) n h)
        ≡ entry_lines (seal_all hash_json xs n h)
          ++ entry_lines (seal_all hash_json ys (n + length xs) (final_head hash_json xs n h))
  unfolding entry_lines seal_all final_head
  seals-append [] ys n h = ap (λ m. entry_lines (seal_all hash_json ys m h)) (omega arith)
  seals-append (x ∷ xs) ys n h =
      cc (seals-append xs ys (suc n) (entry_hash_of hash_json x n h), shift)
    where
      shift : suc n + length xs ≡ n + suc (length xs)
      shift = omega arith

  pub final_head-append :
      (xs ys : List SourceEntry) (n : ℕ) (h : String)
      → final_head hash_json (xs ++ ys) n h
        ≡ final_head hash_json ys (n + length xs) (final_head hash_json xs n h)
  unfolding final_head
  final_head-append [] ys n h = ap (λ m. final_head hash_json ys m h) (omega arith)
  final_head-append (x ∷ xs) ys n h =
      cc (final_head-append xs ys (suc n) (entry_hash_of hash_json x n h), shift)
    where
      shift : suc n + length xs ≡ n + suc (length xs)
      shift = omega arith

  -- The state of a footer.
  pub state_from_footer-inv :
      (f : Footer) (path : SegmentPath) (s : JournalState) (n : ℕ) (w : Walk)
      → Matching f n w
      → state_from_footer hash_json f path ≡ ok s
      → (s.global_sequence ≡ w.expected_sequence - 1)
        × (s.head_hash ≡ w.expected_hash)
        × (s.cursors ≡ w.cursors)
  unfolding state_from_footer
  state_from_footer-inv f path s n w m e = elim (Result-cases (validate_footer hash_json f)) [
    | inr (r, bad) ↦ absurd (ground arith)
    | inl (u, good) ↦ (ground arith, ground arith, ground arith)
  ]
