-- ===== src/Retention/Directory/Reading.antt =====
-- A walk without an issue reads one chain of sealed entries (the loop of `check_journal` in
-- src/sutradhara/retention_journal.py).
use sutradhara.Prelude.{
  ◌+◌, ◌≡◌, refl, subst, inl, inr, none, List, [], ◌∷◌, ◌++◌, length, length-append, arith, ok,
  Result-cases,
}
use mathlib.Core.List.{append_assoc, append-nil}
use sutradhara.Retention.Journal.{JournalState, Footer, HashJson, state_from_footer}
use sutradhara.Retention.Publishing.{SourceEntry, seal_all, final_head}
use sutradhara.Retention.Walking.{Walk, check_segment, start_walk}
use sutradhara.Retention.Walking.Lines.{sequence-advance_all, hash-advance_all}
use sutradhara.Retention.Directory.{Listed, Progress, passed, walk_segments}
use sutradhara.Retention.Directory.Aligned.{
  Aligned, entry_lines, journal_entries, check_segment-inv, entry_lines-seal_all, seals-append,
  final_head-append, state_from_footer-inv,
}

module _ (hash_json : HashJson) where
  -- What a walk reads between two points of the chain.
  pub record Read (p p' : Progress) (ss : List Listed) (xs : List SourceEntry) : Type 0 where
    pub entries_read :
        journal_entries ss ≡ entry_lines (seal_all hash_json xs p.expected_sequence p.expected_hash)
    pub sequence_read : p'.expected_sequence ≡ p.expected_sequence + length xs
    pub head_read : p'.expected_hash ≡ final_head hash_json xs p.expected_sequence p.expected_hash

  pub Read-nil : (p : Progress) → Read p p [] []
  unfolding journal_entries entry_lines seal_all final_head
  Read-nil p = record { entries_read = refl; sequence_read = omega arith; head_read = refl }

  journal_entries-append :
      (ss ts : List Listed) → journal_entries (ss ++ ts) ≡ journal_entries ss ++ journal_entries ts
  unfolding journal_entries
  journal_entries-append [] ts = refl
  journal_entries-append ((s, f) ∷ ss) ts = cc (
    journal_entries-append ss ts,
    append_assoc (entry_lines s.lines) (journal_entries ss) (journal_entries ts),
  )

  pub Read-append :
      (p q r : Progress) (ss ts : List Listed) (xs ys : List SourceEntry)
      → Read p q ss xs
      → Read q r ts ys
      → Read p r (ss ++ ts) (xs ++ ys)
  Read-append p q r ss ts xs ys a b = record {
    entries_read = cc (
      journal_entries-append ss ts,
      a.entries_read,
      b.entries_read,
      a.sequence_read,
      a.head_read,
      seals-append hash_json xs ys p.expected_sequence p.expected_hash,
    );
    sequence_read = omega (arith, a.sequence_read, b.sequence_read, length-append xs ys);
    head_read = cc (
      a.sequence_read,
      a.head_read,
      b.head_read,
      final_head-append hash_json xs ys p.expected_sequence p.expected_hash,
    );
  }

  -- One segment that passes.
  pub check_segment-Read :
      (s : Listed) (p : Progress) (w : Walk) (g : Footer) (state : JournalState)
      → Aligned p
      → check_segment hash_json s.0.lines p.expected_sequence p.expected_hash p.cursors ≡ ok (w, g)
      → state_from_footer hash_json g s.0.path ≡ ok state
      → (xs : List SourceEntry) × Aligned (passed hash_json p w state)
        × Read p (passed hash_json p w state) (s ∷ []) xs
  unfolding passed journal_entries
  check_segment-Read (s, f) p w g state a good stated =
      let (xs, lines, fits, end, m) =
        check_segment-inv hash_json s.lines p.expected_sequence p.expected_hash p.cursors w g
          good in
      let from = start_walk hash_json p.expected_sequence p.expected_hash p.cursors in
      let (at_end, at_head, at_cursors) =
        state_from_footer-inv hash_json g s.path state p.expected_sequence w m stated in
      let grown : w.expected_sequence ≡ p.expected_sequence + length xs =
        cc (sequence-advance_all hash_json xs from) in
      (
        xs,
        record { sequence = omega (arith, a.sequence); head = at_head; cursor = at_cursors },
        record {
          entries_read = cc (
            append-nil (entry_lines s.lines),
            lines,
            entry_lines-seal_all hash_json xs p.expected_sequence p.expected_hash g,
          );
          sequence_read = grown;
          head_read = cc (hash-advance_all hash_json xs from);
        },
      )

  pub walk_segments-Read :
      (ss : List Listed) (p p' : Progress)
      → Aligned p
      → walk_segments hash_json ss p ≡ ok (p', none)
      → (xs : List SourceEntry) × Aligned p' × Read p p' ss xs
  unfolding walk_segments
  walk_segments-Read [] p p' a e =
      let same : p ≡ p' = ground arith in
      ([], subst Aligned same a, subst (λ q. Read p q [] []) same (Read-nil p))
  walk_segments-Read ((s, f) ∷ ss) p p' a e =
      elim (Result-cases
        (check_segment hash_json s.lines p.expected_sequence p.expected_hash p.cursors)) [
          | inr (r, bad) ↦ absurd (ground arith)
          | inl ((w, g), good) ↦ elim (Result-cases (state_from_footer hash_json g s.path)) [
            | inr (r, bad) ↦ absurd (ground arith)
            | inl (state, stated) ↦
                let (xs, aligned, r) = check_segment-Read (s, f) p w g state a good stated in
                let q = passed hash_json p w state in
                let (ys, aligned', r') = walk_segments-Read ss q p' aligned (ground arith) in
                (xs ++ ys, aligned', Read-append p q p' ((s, f) ∷ []) ss xs ys r r')
          ]
        ]
