-- ===== src/Retention/Export/Listing.antt =====
-- A directory after a publication (`_publish_segment` against `_published_segments` and the loop of
-- `check_journal` in src/sutradhara/retention_journal.py).
use sutradhara.Prelude.{
  ℕ, suc, ◌+◌, ◌≤◌, ◌≡◌, refl, ap, inl, inr, none, some, List, [], ◌∷◌, ◌++◌, All, arith, String,
  nat_eq, ok, Result-cases,
}
use sutradhara.Retention.Journal.{
  JournalState, SegmentPath, Segment, Footer, footer, HashJson, last_line, read_footer,
  validate_footer, state_from_footer,
}
use sutradhara.Retention.Publishing.{SourceEntry, seal_all, entry_hash_of, new_footer, new_segment}
use sutradhara.Retention.Walking.{check_segment}
use sutradhara.Retention.Directory.{
  Listed, Progress, number, start_of, insert_segment, sort_segments, check_ranges, list_segment,
  list_segments, published_state, walk_segments, passed,
}

-- Every segment begins at most at a sequence.
abbrev pub Begun : ℕ → List Listed → Type 0
Begun n ss = All (λ l. start_of l ≤ n) ss

pub insert_segment-last :
    (l : Listed) (ss : List Listed) → Begun (start_of l) ss → insert_segment l ss ≡ ss ++ l ∷ []
unfolding insert_segment
insert_segment-last l [] b = refl
insert_segment-last l (s ∷ ss) (b, bs) = ground (arith, insert_segment-last l ss bs)

pub sort_segments-append :
    (ls sorted : List Listed) (l : Listed)
    → sort_segments (ls ++ l ∷ []) sorted ≡ insert_segment l (sort_segments ls sorted)
unfolding sort_segments
sort_segments-append [] sorted l = refl
sort_segments-append (k ∷ ls) sorted l = sort_segments-append ls (insert_segment k sorted) l

pub Begun-append :
    (n m : ℕ) (ss : List Listed) (l : Listed)
    → Begun n ss
    → n ≤ m
    → start_of l ≤ m
    → Begun m (ss ++ l ∷ [])
Begun-append n m [] l b le s = (s, tt)
Begun-append n m (k ∷ ss) l (b, bs) le s = (omega arith, Begun-append n m ss l bs le s)

module _ (hash_json : HashJson) where
  pub list_segments-append :
      (files : List Segment) (s : Segment) (ls : List Listed) (l : Listed)
      → list_segments hash_json files ≡ ok ls
      → list_segment hash_json s ≡ ok l
      → list_segments hash_json (files ++ s ∷ []) ≡ ok (ls ++ l ∷ [])
  unfolding list_segments
  list_segments-append [] s ls l h e = ground arith
  list_segments-append (f ∷ files) s ls l h e = elim (Result-cases (list_segment hash_json f)) [
    | inr (r, bad) ↦ absurd (ground arith)
    | inl (k, here) ↦ elim (Result-cases (list_segments hash_json files)) [
      | inr (r, bad) ↦ absurd (ground arith)
      | inl (ks, rest) ↦ ground (arith, list_segments-append files s ks l rest e)
    ]
  ]

  state_from_footer-ends :
      (f : Footer) (path : SegmentPath) (s : JournalState)
      → state_from_footer hash_json f path ≡ ok s
      → number f.base.global_sequence ≡ s.global_sequence
  unfolding state_from_footer
  state_from_footer-ends f path s h = elim (Result-cases (validate_footer hash_json f)) [
    | inr (r, bad) ↦ absurd (ground arith)
    | inl (u, good) ↦ ground arith
  ]

  -- The segment after the last one begins where that one ends.
  pub check_ranges-append :
      (ss : List Listed) (state : JournalState) (l : Listed)
      → check_ranges ss ≡ ok tt
      → published_state hash_json ss ≡ ok state
      → start_of l ≡ suc state.global_sequence
      → check_ranges (ss ++ l ∷ []) ≡ ok tt
  unfolding check_ranges published_state
  check_ranges-append [] state l r p e = refl
  check_ranges-append ((s, f) ∷ []) state l r p e =
      ground (arith, state_from_footer-ends f s.path state)
  check_ranges-append (s ∷ t ∷ ss) state l r p e =
      ground (arith, check_ranges-append (t ∷ ss) state l)

  pub published_state-append :
      (ss : List Listed) (s : Segment) (f : Footer)
      → published_state hash_json (ss ++ (s, f) ∷ []) ≡ state_from_footer hash_json f s.path
  unfolding published_state
  published_state-append [] s f = refl
  published_state-append (t ∷ []) s f = refl
  published_state-append (t ∷ u ∷ ss) s f = published_state-append (u ∷ ss) s f

  pub walk_segments-append :
      (ss ts : List Listed) (p q : Progress)
      → walk_segments hash_json ss p ≡ ok (q, none)
      → walk_segments hash_json (ss ++ ts) p ≡ walk_segments hash_json ts q
  unfolding walk_segments
  walk_segments-append [] ts p q h =
      let same : p ≡ q = ground arith in ap (λ r. walk_segments hash_json ts r) same
  walk_segments-append ((s, f) ∷ ss) ts p q h =
      elim (Result-cases
        (check_segment hash_json s.lines p.expected_sequence p.expected_hash p.cursors)) [
          | inr (r, bad) ↦ absurd (ground arith)
          | inl ((w, g), good) ↦ elim (Result-cases (state_from_footer hash_json g s.path)) [
            | inr (r, bad) ↦ absurd (ground arith)
            | inl (state, stated) ↦
                ground (arith, walk_segments-append ss ts (passed hash_json p w state) q)
          ]
        ]

  last_line-seal_all :
      (xs : List SourceEntry) (n : ℕ) (h : String) (f : Footer)
      → last_line hash_json (seal_all hash_json xs n h ++ footer f ∷ []) ≡ some (footer f)
  unfolding last_line seal_all
  last_line-seal_all [] n h f = refl
  last_line-seal_all (x ∷ xs) n h f =
      rw (last_line-seal_all xs (suc n) (entry_hash_of hash_json x n h) f) refl

  pub read-new_segment :
      (xs : List SourceEntry) (previous : JournalState) (now : ℕ)
      → validate_footer hash_json (new_footer hash_json xs previous now) ≡ ok tt
      → read_footer hash_json (new_segment hash_json xs previous now)
        ≡ ok (new_footer hash_json xs previous now)
  unfolding read_footer new_segment
  read-new_segment xs previous now v = ground (
    arith,
    last_line-seal_all xs (previous.global_sequence + 1) previous.head_hash
        (new_footer hash_json xs previous now),
  )

  pub list-new_segment :
      (xs : List SourceEntry) (previous : JournalState) (now : ℕ)
      → validate_footer hash_json (new_footer hash_json xs previous now) ≡ ok tt
      → list_segment hash_json (new_segment hash_json xs previous now)
        ≡ ok (new_segment hash_json xs previous now, new_footer hash_json xs previous now)
  unfolding list_segment new_segment new_footer
  list-new_segment xs previous now v = rw (read-new_segment xs previous now v) (ground arith)
