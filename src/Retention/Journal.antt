-- ===== src/Retention/Journal.antt =====
-- The files of the journal, and the reading of their footers (src/sutradhara/retention_journal.py).
-- A line is its parsed JSON. `none` in a field stands for a missing key or for a value that
-- `isinstance` or `_integer` refuses. Keys of an entry that nobody reads are left out; `further` of a
-- footer is what else its object holds. A path is its dated directory and the numbers in its name; files
-- that the pattern of the names passes over are left out, as are failures to open a file.
use Prim.Native.Char.{code}
use sutradhara.Prelude.{
  ℕ, suc, String, Bool, false, not, ◌&&◌, ◌||◌, Option, none, some, List, [], ◌∷◌, all, leb, ◌==◌,
  Eq, nat_eq, string_eq, Result, ok, err, ◌>>=◌, ◌>>◌, guard, or_raise,
}
use sutradhara.Retention.Rows.{Source, verify_receipt, retention_event, Payload}

abbrev pub envelope_id_v1 : String
envelope_id_v1 = "sutradhara.retention-journal/v1"

abbrev pub hash_algorithm_sha256 : String
hash_algorithm_sha256 = "sha256"

-- `GENESIS_HASH`, evaluated
abbrev pub genesis_hash : String
genesis_hash = "5235df96f0e97cce51b007a450a31b00a7a0e2db123eefb2591ca4340e082d52"

-- The dict of cursors, one for each source.
pub record Cursors : Type 0 where
  pub receipts : ℕ
  pub events : ℕ

abbrev pub cursor_of : Source → Cursors → ℕ
cursor_of verify_receipt c = c.receipts
cursor_of retention_event c = c.events

-- `cursors[source] = event_id`
abbrev pub set_cursor : Source → ℕ → Cursors → Cursors
set_cursor verify_receipt n c = record c { receipts = n }
set_cursor retention_event n c = record c { events = n }

pub record SegmentPath : Type 0 where
  pub day : ℕ
  pub first_sequence : ℕ
  pub last_sequence : ℕ

pub record JournalState : Type 0 where
  pub global_sequence : ℕ
  pub head_hash : String
  pub cursors : Cursors
  pub published_filename : Option SegmentPath
  pub published_at : Option ℕ

abbrev pub initial_state : JournalState
initial_state = record {
  global_sequence = 0;
  head_hash = genesis_hash;
  cursors = record { receipts = 0; events = 0 };
  published_filename = none;
  published_at = none;
}

-- The object that an entry's hash is taken of.
pub record Link : Type 0 where
  pub envelope_id : String
  pub hash_algorithm_id : String
  pub sequence : ℕ
  pub source : Source
  pub event_id : ℕ
  pub checksum : String
  pub prev_hash : String

pub record Envelope : Type 0 where
  pub envelope_id : Option String
  pub hash_algorithm_id : Option String
  pub sequence : Option ℕ
  pub source : Option Source
  pub event_id : Option ℕ
  pub checksum : Option String
  pub prev_hash : Option String
  pub payload : Option Payload
  pub entry_hash : Option String

-- What `dt.datetime.fromisoformat` makes of `published_at`.
pub data Stamp : Type 0 where
  missing invalid : Stamp
  stamp : ℕ → Stamp

-- A footer without its checksum. `cursors` is some where it is a dict of exactly the two sources.
pub record FooterBase : Type 0 where
  pub footer_version : Option ℕ
  pub envelope_id : Option String
  pub hash_algorithm_id : Option String
  pub segment_start_sequence : Option ℕ
  pub entry_count : Option ℕ
  pub global_sequence : Option ℕ
  pub head_hash : Option String
  pub cursors : Option (Option ℕ × Option ℕ)
  pub published_at : Stamp
  pub further : String

pub record Footer : Type 0 where
  pub base : FooterBase
  pub footer_checksum : Option String

pub data Line : Type 0 where
  blank not_json not_an_object unknown_kind : Line
  entry : Envelope → Line
  footer : Footer → Line

pub record Segment : Type 0 where
  pub path : SegmentPath
  pub lines : List Line

-- What `_hash_json` is taken of: SHA-256 of the canonical text, a parameter of the model.
pub data Document : Type 0 where
  payload_document : Payload → Document
  link_document : Link → Document
  footer_document : FooterBase → Document

abbrev pub HashJson : Type 0
HashJson = Document → String

pub data JournalError : Type 0 where
  bad_footer_version bad_envelope_id bad_hash_algorithm no_footer_checksum : JournalError
  footer_checksum_mismatch not_an_integer bad_head_hash bad_cursors zero_entries : JournalError
  no_published_at bad_published_at empty_segment bad_footer_line no_footer : JournalError
  filename_footer_mismatch range_discontinuity invalid_json envelope_not_an_object : JournalError
  duplicate_footer entry_after_footer unknown_envelope_kind sequence_discontinuity : JournalError
  unknown_source order_violation non_increasing_cursor payload_not_an_object : JournalError
  payload_event_id_differs entry_checksum_mismatch previous_hash_mismatch : JournalError
  entry_hash_mismatch footer_does_not_match segment_exists checkpoint_ahead : JournalError
  dr_collision dr_head_collision dr_unreachable already_running crashed : JournalError

abbrev pub Journal : Type 0 → Type 0
Journal A = Result JournalError A

-- `value == constant` for a value that may be of another type
abbrev pub holds : {A : Type 0} ⦃e : Eq A⦄ → Option A → A → Bool
holds none c = false
holds (some v) c = v == c

codes : String → List ℕ
codes String.[] = []
codes (String.◌∷◌ c s) = code c ∷ codes s

count : List ℕ → ℕ
count [] = 0
count (c ∷ cs) = suc (count cs)

-- `char in "0123456789abcdef"`
abbrev is_hex : ℕ → Bool
is_hex c = (leb 48 c && leb c 57) || (leb 97 c && leb c 102)

unfoldable pub is_sha256 : String → Bool
unfolding codes count
is_sha256 value = count (codes value) == 64 && all is_hex (codes value)

-- `head_hash` where it is a digest
abbrev is_digest : Option String → Bool
is_digest none = false
is_digest (some h) = is_sha256 h

module _ (hash_json : HashJson) where
  unfoldable pub validate_footer : Footer → Journal (Unit {0})
  validate_footer f = do
    guard (holds f.base.footer_version 1) bad_footer_version
    guard (holds f.base.envelope_id envelope_id_v1) bad_envelope_id
    guard (holds f.base.hash_algorithm_id hash_algorithm_sha256) bad_hash_algorithm
    checksum ← or_raise f.footer_checksum no_footer_checksum
    guard (checksum == hash_json (footer_document f.base)) footer_checksum_mismatch
    global_sequence ← or_raise f.base.global_sequence not_an_integer
    segment_start ← or_raise f.base.segment_start_sequence not_an_integer
    entry_count ← or_raise f.base.entry_count not_an_integer
    guard (is_digest f.base.head_hash) bad_head_hash
    (receipts, events) ← or_raise f.base.cursors bad_cursors
    receipts' ← or_raise receipts not_an_integer
    events' ← or_raise events not_an_integer
    guard (not (entry_count == 0)) zero_entries

  read_stamp : Stamp → Journal ℕ
  read_stamp missing = err no_published_at
  read_stamp invalid = err bad_published_at
  read_stamp (stamp t) = ok t

  unfoldable pub state_from_footer : Footer → SegmentPath → Journal JournalState
  unfolding read_stamp
  state_from_footer f path = do
    validate_footer f
    (receipts, events) ← or_raise f.base.cursors bad_cursors
    published_at ← read_stamp f.base.published_at
    head ← or_raise f.base.head_hash bad_head_hash
    global_sequence ← or_raise f.base.global_sequence not_an_integer
    receipts' ← or_raise receipts not_an_integer
    events' ← or_raise events not_an_integer
    ok (record {
      global_sequence = global_sequence;
      head_hash = head;
      cursors = record { receipts = receipts'; events = events' };
      published_filename = some path;
      published_at = some published_at;
    })

  -- The last line that is not blank.
  unfoldable pub last_line : List Line → Option Line
  last_line [] = none
  last_line (blank ∷ ls) = last_line ls
  last_line (l ∷ ls) = let later = last_line ls in elim later [ none ↦ some l | some k ↦ some k ]

  unfoldable pub as_footer : Option Line → Journal Footer
  as_footer none = err empty_segment
  as_footer (some (footer f)) = ok f
  as_footer (some l) = err bad_footer_line

  unfoldable pub read_footer : Segment → Journal Footer
  unfolding last_line as_footer
  read_footer s = do f ← as_footer (last_line s.lines); validate_footer f; ok f
