-- ===== src/Retention/Inspection/Comparing.antt =====
-- The comparison with the off-box copy, when it finds no issue (`check_journal` of
-- src/sutradhara/retention_journal.py).
use sutradhara.Prelude.{
  ◌≡◌, refl, ◌∙◌, sym, ap, inl, inr, if◌then◌else◌, Bool, true, false, Option, none, some, List, [],
  ◌∷◌, ◌++◌, All, arith, ok, err, Bool-cases,
}
use sutradhara.Prelude.Dict.{lookup}
use sutradhara.Retention.Journal.{Journal, JournalError}
use sutradhara.Retention.Directory.{Listed}
use sutradhara.Retention.Shipping.{
  Key, read_bytes, key_eq, Destination, Content, segment_bytes, segment_key, anchor_key,
  content_same, Content-discrete,
}
use sutradhara.Retention.Shipping.Arriving.{calls_cases}
use sutradhara.Retention.Inspection.{
  Issue, offbox_read_failed, anchor_differs, same_object, compare_segments, compare_offbox,
}
use sutradhara.Retention.Inspection.Agreeing.{append_empty}

content_same_iff : (a b : Content) → content_same a b ≡ true → a ≡ b
unfolding content_same
content_same_iff a b h = go (Content-discrete a b) h
  where
    go : (x : Dec (a ≡ b)) → (elim x [ yes _ ↦ true | no _ ↦ false ]) ≡ true → a ≡ b
    go (yes e) t = e
    go (no n) t = absurd (ground arith)

same_object_iff :
    (actual : Option Content) (expected : Content)
    → same_object actual expected ≡ true
    → actual ≡ some expected
same_object_iff none expected h = absurd (ground arith)
same_object_iff (some a) expected h = ap some (content_same_iff a expected h)

-- The object of a segment is there with the bytes of its file.
abbrev pub Mirrored : Destination → Listed → Type 0
Mirrored d l = lookup (segment_key l.0.path) d.objects ≡ some (segment_bytes l.0.lines)

compare_segments-same :
    (ss : List Listed) (d : Destination)
    → (compare_segments ss d).1 ≡ []
    → (compare_segments ss d).2 ≡ none
    → All (Mirrored d) ss × ((compare_segments ss d).0.objects ≡ d.objects)
unfolding compare_segments
compare_segments-same [] d e f = (tt, refl)
compare_segments-same ((s, footer) ∷ ss) d e f = elim (calls_cases d.calls) [
  | inl silent ↦ absurd (ground arith)
  | inr (n, answers) ↦
      let d' : Destination = record d { calls = n } in
      let expected = segment_bytes s.lines in
      elim (Bool-cases (same_object (lookup (segment_key s.path) d.objects) expected)) [
        | inr differs ↦ absurd (ground arith)
        | inl same ↦
            let (later, kept) = compare_segments-same ss d' (ground arith) (ground arith) in
            ((same_object_iff _ expected same, later), ground arith)
      ]
]

-- How the comparison ends.
abbrev offbox_outcome :
    List Issue → Option JournalError → Journal (Option Content) → Content → List Issue × Bool
offbox_outcome found unread read expected = elim unread [
  | some e ↦ (found ++ offbox_read_failed e ∷ [], false)
  | none ↦ elim read [
    | err e ↦ (found ++ offbox_read_failed e ∷ [], false)
    | ok actual ↦
        (if same_object actual expected then found else found ++ anchor_differs ∷ [], true)
  ]
]

offbox_end :
    (found : List Issue) (unread : Option JournalError) (read : Journal (Option Content))
    (expected : Content)
    → (offbox_outcome found unread read expected).0 ≡ []
    → (found ≡ [])
      × (unread ≡ none)
      × (read ≡ ok (some expected))
      × ((offbox_outcome found unread read expected).1 ≡ true)
offbox_end found (some x) read expected e =
    absurd (ground (arith, (append_empty found (offbox_read_failed x ∷ []) e).1))
offbox_end found none (err x) expected e =
    absurd (ground (arith, (append_empty found (offbox_read_failed x ∷ []) e).1))
offbox_end found none (ok actual) expected e = elim (Bool-cases (same_object actual expected)) [
  | inl same ↦ (rw same at e, refl, ap ok (same_object_iff actual expected same), refl)
  | inr differs ↦
      absurd (ground (arith, (append_empty found (anchor_differs ∷ []) (rw differs at e)).1))
]

read_bytes-ok :
    (k : Key) (d : Destination) (o : Option Content)
    → (read_bytes k d).1 ≡ ok o
    → lookup k d.objects ≡ o
unfolding read_bytes
read_bytes-ok k d o e = elim (calls_cases d.calls) [
  | inl silent ↦ absurd (ground arith)
  | inr (n, answers) ↦ ground arith
]

pub compare_offbox-same :
    (ss : List Listed) (l : Listed) (expected : Content) (d : Destination)
    → (compare_offbox ss l expected d).0 ≡ []
    → All (Mirrored d) ss
      × (lookup (anchor_key l.0.path) d.objects ≡ some expected)
      × ((compare_offbox ss l expected d).1 ≡ true)
unfolding compare_offbox
compare_offbox-same ss l expected d e =
    let (d', found, unread) = compare_segments ss d in
    let (no_issue, finished, read, made) =
      offbox_end found unread (read_bytes (anchor_key l.0.path) d').1 expected e in
    let (mirrored, kept) = compare_segments-same ss d no_issue finished in
    (
      mirrored,
      ap (lookup (anchor_key l.0.path)) (sym kept)
          ∙ read_bytes-ok (anchor_key l.0.path) d' (some expected) read,
      made,
    )
