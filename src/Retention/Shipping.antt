-- ===== src/Retention/Shipping.antt =====
-- Shipping to the append-only off-box copy (`AppendOnlyDestination`, its two implementations,
-- `_ship_segments` and `_anchor_bytes` of src/sutradhara/retention_journal.py). A destination is the dict of
-- its objects and the number of calls that it still answers: the next one raises, whatever it asks.
-- A file's bytes are its lines, and an anchor's the object that is printed.
pub mod Resuming
pub mod Anchors
pub mod Resumption
pub mod Arriving
use native.Mathlib.Decide.{ℕ_discrete}
use sutradhara.Prelude.{
  ℕ, zero, suc, ◌+◌, ◌≡◌, ◌↔◌, refl, Bool, true, false, ◌&&◌, not, Option, none, some, List, [],
  ◌∷◌, ◌++◌, length, ◌==◌, Eq, String, nat_eq, string_eq, if◌then◌else◌, ok, err, ◌>>=◌, arith,
  nat_beq, string_discrete,
}
use sutradhara.Prelude.Dict.{Dict, lookup, insert}
use sutradhara.Retention.Rows.{Payload-discrete}
use sutradhara.Retention.Journal.{
  Cursors, JournalState, SegmentPath, Line, Segment, Footer, HashJson, Journal, JournalError,
  state_from_footer, dr_collision, dr_head_collision, dr_unreachable, envelope_id_v1,
  hash_algorithm_sha256,
}
use sutradhara.Retention.Directory.{Listed}

-- `_segment_key` and `_anchor_key` of a path
pub record Key : Type 0 where
  pub path : SegmentPath
  pub anchor : Bool

abbrev bool_same : Bool → Bool → Bool
bool_same true true = true
bool_same true false = false
bool_same false true = false
bool_same false false = true

abbrev key_same : Key → Key → Bool
key_same a b =
    nat_beq a.path.day b.path.day
    && nat_beq a.path.first_sequence b.path.first_sequence
    && nat_beq a.path.last_sequence b.path.last_sequence
    && bool_same a.anchor b.anchor

pub key_same_iff : (a b : Key) → (key_same a b ≡ true) ↔ (a ≡ b)
key_same_iff a b = ground arith

instance abbrev pub key_eq : Eq Key
key_eq = record { same = key_same; same_iff = key_same_iff }

abbrev pub segment_key : SegmentPath → Key
segment_key p = record { path = p; anchor = false }

abbrev pub anchor_key : SegmentPath → Key
anchor_key p = record { path = p; anchor = true }

-- The object of `_anchor_bytes`; the name of a path is its two numbers.
pub record Anchor : Type 0 where
  pub envelope_id : String
  pub hash_algorithm_id : String
  pub global_sequence : ℕ
  pub head_hash : String
  pub cursors : Cursors
  pub published_filename : Option (ℕ × ℕ)
  pub published_at : Option ℕ

pub data Content : Type 0 where
  segment_bytes : List Line → Content
  anchor_bytes : Anchor → Content

abbrev name_of : Option SegmentPath → Option (ℕ × ℕ)
name_of none = none
name_of (some p) = some (p.first_sequence, p.last_sequence)

unfoldable pub anchor_of_state : JournalState → Content
anchor_of_state s = anchor_bytes (record {
  envelope_id = envelope_id_v1;
  hash_algorithm_id = hash_algorithm_sha256;
  global_sequence = s.global_sequence;
  head_hash = s.head_hash;
  cursors = s.cursors;
  published_filename = name_of s.published_filename;
  published_at = s.published_at;
})

pub record Destination : Type 0 where
  pub objects : Dict Key Content
  pub calls : ℕ

-- How a destination compares a file with the object that is there: by size and digest on disk, by
-- digest over SSH.
pub record Compare : Type 0 where
  pub size : Content → ℕ
  pub hash_file : Content → String
  pub with_size : Bool

unfoldable pub same_file : Compare → Content → Content → Bool
same_file c a b =
    (if c.with_size then c.size a == c.size b else true) && c.hash_file a == c.hash_file b

unfoldable pub read_bytes : Key → Destination → Destination × Journal (Option Content)
read_bytes k d = elim d.calls [
  | zero ↦ (d, err dr_unreachable)
  | suc n ↦ (record d { calls = n }, ok (lookup k d.objects))
]

-- `publish_file`, and `publish_bytes` by a file of its own. An object that is there stays.
unfoldable pub publish_file : Compare → Content → Key → Destination → Destination × Journal Bool
unfolding same_file
publish_file c content k d = elim d.calls [
  | zero ↦ (d, err dr_unreachable)
  | suc n ↦ elim (lookup k d.objects) [
    | none ↦ (record { objects = insert k content d.objects; calls = n }, ok true)
    | some old ↦
        (record d { calls = n }, if same_file c content old then ok false else err dr_collision)
  ]
]

pub Content-discrete : Discrete Content
Content-discrete = hlevel (ℕ_discrete, string_discrete, Payload-discrete)

-- `actual == expected` of bytes
unfoldable pub content_same : Content → Content → Bool
content_same a b = elim (Content-discrete a b) [ yes _ ↦ true | no _ ↦ false ]

-- One turn of the loop that looks for the newest anchor that matches.
unfoldable pub judge : Content → Option Content → Journal Bool
unfolding content_same
judge expected none = ok false
judge expected (some actual) =
    if content_same actual expected then ok true else err dr_head_collision

unfoldable pub drop : ℕ → List Listed → List Listed
drop zero ls = ls
drop (suc n) [] = []
drop (suc n) (l ∷ ls) = drop n ls

unfoldable pub reversed : List Listed → List Listed
reversed [] = []
reversed (l ∷ ls) = reversed ls ++ l ∷ []

module _ (hash_json : HashJson) where
  -- The anchor of a listed segment.
  unfoldable pub anchor_of : Listed → Journal Content
  unfolding anchor_of_state
  anchor_of (s, f) = do state ← state_from_footer hash_json f s.path; ok (anchor_of_state state)

  -- The loop from the last segment down, on the reversed list: how many segments need no shipping.
  unfoldable pub first_unshipped : List Listed → Destination → Destination × Journal ℕ
  unfolding anchor_of read_bytes judge
  first_unshipped [] d = (d, ok 0)
  first_unshipped ((s, f) ∷ earlier) d = elim (anchor_of (s, f)) [
    | err e ↦ (d, err e)
    | ok expected ↦
        let (d', read) = read_bytes (anchor_key s.path) d in
        let onward = first_unshipped earlier d' in
        elim (read >>= judge expected) [
          | err e ↦ (d', err e)
          | ok true ↦ (d', ok (suc (length earlier)))
          | ok false ↦ onward
        ]
  ]

module _ (hash_json : HashJson) (c : Compare) where
  -- One turn of the loop that ships.
  unfoldable pub ship_one : Listed → Destination → Destination × Journal (Unit {0})
  unfolding publish_file anchor_of
  ship_one (s, f) d =
      let (d', sent) = publish_file c (segment_bytes s.lines) (segment_key s.path) d in
      elim (sent >>= λ _. anchor_of hash_json (s, f)) [
        | err e ↦ (d', err e)
        | ok anchor ↦
            let (d'', sealed) = publish_file c anchor (anchor_key s.path) d' in
            (d'', sealed >>= λ _. ok tt)
      ]

  unfoldable pub ship_all : List Listed → Destination → Destination × Journal ℕ
  unfolding ship_one
  ship_all [] d = (d, ok 0)
  ship_all (l ∷ ls) d =
      let (d', r) = ship_one l d in
      let onward = ship_all ls d' in
      elim r [ err e ↦ (d', err e) | ok _ ↦ (onward.0, onward.1 >>= λ n. ok (suc n)) ]

  unfoldable pub ship_segments : List Listed → Destination → Destination × Journal ℕ
  unfolding first_unshipped ship_all drop reversed
  ship_segments segments d =
      let (d', first) = first_unshipped hash_json (reversed segments) d in
      elim first [ err e ↦ (d', err e) | ok n ↦ ship_all (drop n segments) d' ]
