-- ===== src/Retention/Export/Sound.antt =====
-- A directory that the exporter wrote (`_publish_segment` and the reading of it in
-- src/sutradhara/retention_journal.py) is listed, and walked without an issue.
use sutradhara.Prelude.{
  ℕ, suc, ◌+◌, ◌≤◌, ◌≡◌, refl, sym, ◌∙◌, inl, inr, false, none, List, [], ◌∷◌, ◌++◌, All, arith,
  nat_eq, ok, Result-cases,
}
use sutradhara.Retention.Journal.{Segment, Footer, HashJson, validate_footer}
use sutradhara.Retention.Publishing.{SourceEntry, new_footer, new_segment, path_exists, footer_base}
use sutradhara.Retention.Walking.{start_walk, check_segment}
use sutradhara.Retention.Walking.Lines.{
  AllAcceptable, advance_all, sequence-advance_all, hash-advance_all, cursors-advance_all,
}
use sutradhara.Retention.Directory.{
  Listed, Progress, start, start_of, check_ranges, sort_segments, list_segment, list_segments,
  published_segments, published_state, walk_segments, passed,
}
use sutradhara.Retention.Directory.Aligned.{Aligned}
use sutradhara.Retention.Export.Publication.{next_state, state-new_footer, check-new_segment}
use sutradhara.Retention.Export.Listing.{
  Begun, Begun-append, insert_segment-last, sort_segments-append, list_segments-append,
  check_ranges-append, published_state-append, walk_segments-append, list-new_segment,
}

-- No file begins behind a sequence.
abbrev pub FilesBegun : ℕ → List Segment → Type 0
FilesBegun n files = All (λ s. s.path.first_sequence ≤ n) files

FilesBegun-append :
    (n m : ℕ) (files : List Segment) (s : Segment)
    → FilesBegun n files
    → n ≤ m
    → s.path.first_sequence ≤ m
    → FilesBegun m (files ++ s ∷ [])
FilesBegun-append n m [] s b l e = (e, tt)
FilesBegun-append n m (f ∷ files) s (b, bs) l e =
    (omega arith, FilesBegun-append n m files s bs l e)

-- So the name of the next segment is free.
pub path-FilesBegun :
    (n : ℕ) (files : List Segment) (s : Segment)
    → FilesBegun n files
    → s.path.first_sequence ≡ suc n
    → path_exists s.path files ≡ false
unfolding path_exists
path-FilesBegun n [] s b e = refl
path-FilesBegun n (f ∷ files) s (b, bs) e = ground (arith, path-FilesBegun n files s bs e)

pub Begun-weaken : (n m : ℕ) (ss : List Listed) → Begun n ss → n ≤ m → Begun m ss
Begun-weaken n m [] b l = tt
Begun-weaken n m (s ∷ ss) (b, bs) l = (omega arith, Begun-weaken n m ss bs l)

module _ (hash_json : HashJson) where
  pub record Sound (files : List Segment) (ss : List Listed) (p : Progress) : Type 0 where
    pub listed : published_segments hash_json files ≡ ok ss
    pub stated : published_state hash_json ss ≡ ok p.state
    pub walked : walk_segments hash_json ss start ≡ ok (p, none)
    pub aligned : Aligned p
    pub begun : Begun p.state.global_sequence ss
    pub files_begun : FilesBegun p.state.global_sequence files

  pub Sound-nil : Sound [] [] start
  unfolding published_segments published_state walk_segments list_segments sort_segments
      check_ranges
  Sound-nil = record {
    listed = refl;
    stated = refl;
    walked = refl;
    aligned = record { sequence = refl; head = refl; cursor = refl };
    begun = tt;
    files_begun = tt;
  }

  -- The state of the walk after a publication.
  unfoldable pub next_progress : List SourceEntry → Progress → ℕ → Progress
  unfolding passed next_state
  next_progress xs p now =
      passed hash_json p
        (advance_all hash_json xs
          (start_walk hash_json (p.state.global_sequence + 1) p.state.head_hash p.state.cursors))
        (next_state hash_json xs p.state now)

  listed-publish :
      (files : List Segment) (ss : List Listed) (p : Progress) (s : Segment) (f : Footer)
      → Sound files ss p
      → list_segment hash_json s ≡ ok (s, f)
      → start_of (s, f) ≡ suc p.state.global_sequence
      → published_segments hash_json (files ++ s ∷ []) ≡ ok (ss ++ (s, f) ∷ [])
  unfolding published_segments
  listed-publish files ss p s f sound new from =
      elim (Result-cases (list_segments hash_json files)) [
        | inr (r, bad) ↦ absurd (ground (arith, sound.listed))
        | inl (ls, good) ↦ elim (Result-cases (check_ranges (sort_segments ls []))) [
          | inr (r, bad) ↦ absurd (ground (arith, sound.listed))
          | inl (u, ranges) ↦
              let sorted : sort_segments ls [] ≡ ss = ground (arith, sound.listed) in
              let last =
                insert_segment-last (s, f) ss (Begun-weaken _ _ ss sound.begun (omega arith)) in
              let placed : sort_segments (ls ++ (s, f) ∷ []) [] ≡ ss ++ (s, f) ∷ [] =
                cc (sort_segments-append ls [] (s, f), sorted, last) in
              let all = list_segments-append hash_json files s ls (s, f) good new in
              let chain = check_ranges-append hash_json ss p.state (s, f) (cc) sound.stated from in
              rw (all, placed, chain) refl
        ]
      ]

  walked-publish :
      (files : List Segment) (ss : List Listed) (p : Progress) (xs : List SourceEntry) (now : ℕ)
      → Sound files ss p
      → AllAcceptable hash_json xs
          (start_walk hash_json (p.state.global_sequence + 1) p.state.head_hash p.state.cursors)
      → validate_footer hash_json (new_footer hash_json xs p.state now) ≡ ok tt
      → walk_segments hash_json
          (ss ++ (new_segment hash_json xs p.state now, new_footer hash_json xs p.state now) ∷ [])
          start
        ≡ ok (next_progress xs p now, none)
  unfolding next_progress walk_segments
  walked-publish files ss p xs now sound fits v =
      let s = new_segment hash_json xs p.state now in
      let f = new_footer hash_json xs p.state now in
      let onward = walk_segments-append hash_json ss ((s, f) ∷ []) start p sound.walked in
      let checked = check-new_segment hash_json xs p.state now fits v in
      let stated = state-new_footer hash_json xs p.state now v in
      let at_place : p.state.global_sequence + 1 ≡ p.expected_sequence =
        omega (arith, sound.aligned.sequence) in
      let met : check_segment hash_json s.lines p.expected_sequence p.expected_hash p.cursors
          ≡ check_segment hash_json s.lines (p.state.global_sequence + 1) p.state.head_hash
              p.state.cursors =
        cc (sound.aligned.head, sound.aligned.cursor) in
      rw (onward, met ∙ checked, walk_segments, stated) refl

  next-Aligned : (p : Progress) (xs : List SourceEntry) (now : ℕ) → Aligned (next_progress xs p now)
  unfolding next_progress passed next_state
  next-Aligned p xs now =
      let from =
        start_walk hash_json (p.state.global_sequence + 1) p.state.head_hash p.state.cursors in
      record {
        sequence = omega (arith, sequence-advance_all hash_json xs from);
        head = sym (hash-advance_all hash_json xs from);
        cursor = sym (cursors-advance_all hash_json xs from);
      }

  -- A publication of entries that may stand next keeps the directory sound.
  pub Sound-publish :
      (files : List Segment) (ss : List Listed) (p : Progress) (x : SourceEntry)
      (xs : List SourceEntry) (now : ℕ)
      → Sound files ss p
      → AllAcceptable hash_json
          (x ∷ xs)
          (start_walk hash_json (p.state.global_sequence + 1) p.state.head_hash p.state.cursors)
      → validate_footer hash_json (new_footer hash_json (x ∷ xs) p.state now) ≡ ok tt
      → Sound
          (files ++ new_segment hash_json (x ∷ xs) p.state now ∷ [])
          (ss
            ++ (
              new_segment hash_json (x ∷ xs) p.state now,
              new_footer hash_json (x ∷ xs) p.state now,
            )
              ∷ [])
          (next_progress (x ∷ xs) p now)
  unfolding next_progress passed next_state new_segment new_footer footer_base
  Sound-publish files ss p x xs now sound fits v =
      let s = new_segment hash_json (x ∷ xs) p.state now in
      let f = new_footer hash_json (x ∷ xs) p.state now in
      record {
        listed =
            listed-publish files ss p s f sound (list-new_segment hash_json (x ∷ xs) p.state now v)
              (omega arith);
        stated =
            published_state-append hash_json ss s f
            ∙ state-new_footer hash_json (x ∷ xs) p.state now v;
        walked = walked-publish files ss p (x ∷ xs) now sound fits v;
        aligned = next-Aligned p (x ∷ xs) now;
        begun = Begun-append _ _ ss (s, f) sound.begun (omega arith) (omega arith);
        files_begun = FilesBegun-append _ _ files s sound.files_begun (omega arith) (omega arith);
      }
