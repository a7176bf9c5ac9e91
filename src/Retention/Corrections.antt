-- ===== src/Retention/Corrections.antt =====
-- Corrections of receipts (`record_journal_correction` of src/sutradhara/retention_journal.py) against
-- the check constraints of `retention_event` in src/sutradhara/catalog/models.py. `str` of an int,
-- `json.dumps` of a text and the random part of the operation id are parameters.
use Prim.Native.String.{◌++◌ as ◌<>◌}
use sutradhara.Prelude.{
  ℕ, suc, ◌≤◌, ◌<◌, ◌≡◌, ◌∙◌, inl, inr, Bool, true, false, not, ◌&&◌, ◌||◌, Option, none, some,
  List, [], ◌∷◌, any, max, if◌then◌else◌, ◌==◌, String, nat_eq, string_eq, arith, Result, ok, err,
  ◌>>=◌, ◌>>◌, guard, or_raise, Bool-cases,
}
use sutradhara.Prelude.Ordering.{Below}
use sutradhara.Retention.Rows.{
  Source, verify_receipt, retention_event, source_name, VerifyReceipt, RetentionEvent,
}
use sutradhara.Retention.Export.{World, event_key}

pub data CorrectionError : Type 0 where
  bad_event_id no_actor_or_reason no_such_row integrity : CorrectionError

is_in : String → List String → Bool
is_in a xs = any (λ x. x == a) xs

abbrev is_none : Option String → Bool
is_none none = true
is_none (some s) = false

abbrev same_id : Option String → String → Bool
same_id none s = false
same_id (some i) s = i == s

-- `ck_retention_event_subject`
unfoldable pub subject_ok : String → Option String → String → String → Bool
unfolding is_in
subject_ok subject_type intake_id subject_id action =
    (subject_type == "intake"
      && same_id intake_id subject_id
      && is_in action (
          "released" ∷ "cloud_blob_deleted" ∷ "staging_deleted" ∷ "release_attempted"
          ∷ "purge_attempted" ∷ "staging_tombstoned" ∷ "staging_purge_held" ∷ "abandoned"
          ∷ "correction_recorded" ∷ []))
    || (subject_type == "media"
        && is_none intake_id
        && is_in action ("offsite_confirmed" ∷ "correction_recorded" ∷ []))
    || (subject_type == "batch"
        && is_none intake_id
        && is_in action ("batch_invoked" ∷ "batch_refused" ∷ "grace_overridden" ∷ []))
    || (subject_type == "receipt" && is_none intake_id && action == "correction_recorded")

-- `ck_retention_event_supersession`
unfoldable pub supersession_ok : Option Source → Option ℕ → String → Bool
supersession_ok none none action = true
supersession_ok (some s) (some n) action = action == "correction_recorded"
supersession_ok none (some n) action = false
supersession_ok (some s) none action = false

unfoldable pub event_ok : RetentionEvent → Bool
unfolding subject_ok supersession_ok
event_ok e =
    subject_ok e.subject_type e.intake_id e.subject_id e.action
    && supersession_ok e.supersedes_source e.supersedes_event_id e.action

unfoldable pub find_event : ℕ → List RetentionEvent → Option RetentionEvent
find_event id [] = none
find_event id (e ∷ es) = let rest = find_event id es in if e.event_id == id then some e else rest

unfoldable pub find_receipt : ℕ → List VerifyReceipt → Option VerifyReceipt
find_receipt id [] = none
find_receipt id (r ∷ rs) =
    let rest = find_receipt id rs in if r.event_id == id then some r else rest

-- The id that SQLite gives to the next row.
unfoldable pub next_event_id : List RetentionEvent → ℕ
next_event_id [] = 1
next_event_id (e ∷ es) = max (suc e.event_id) (next_event_id es)

-- What a correction takes over from its target: the subject type, its id, and the intake.
abbrev pub Subject : Type 0
Subject = String × String × Option String

module _ (text_of : ℕ → String) (json_of : String → String) where
  unfoldable pub subject_of : Source → ℕ → World → Result CorrectionError Subject
  unfolding find_event find_receipt
  subject_of retention_event id w = do
    e ← or_raise (find_event id w.events) no_such_row
    ok (e.subject_type, e.subject_id, e.intake_id)
  subject_of verify_receipt id w = do
    r ← or_raise (find_receipt id w.receipts) no_such_row
    ok ("receipt", "verify_receipt:" <> text_of id, none)

  unfoldable pub correction_row :
      Source → ℕ → String → String → String → ℕ → ℕ → Subject → RetentionEvent
  correction_row source id actor reason uuid now new_id (subject_type, subject_id, intake_id) =
      record {
        event_id = new_id;
        intake_id = intake_id;
        subject_type = subject_type;
        subject_id = subject_id;
        action = "correction_recorded";
        operation_id =
            "journal-correction:" <> source_name source <> ":" <> text_of id <> ":" <> uuid;
        actor = actor;
        at_time = now;
        detail = some ("{\"kind\":\"receipt-supersession\",\"reason\":" <> json_of reason <> "}");
        supersedes_source = some source;
        supersedes_event_id = some id;
      }

  -- A constraint that the new row fails makes the flush raise.
  unfoldable pub record_journal_correction :
      Source → ℕ → String → String → String → ℕ → World → Result CorrectionError World
  unfolding subject_of correction_row event_ok next_event_id
  record_journal_correction source id actor reason uuid now w = do
    guard (not (id == 0)) bad_event_id
    guard (not (actor == "") && not (reason == "")) no_actor_or_reason
    subject ← subject_of source id w
    let row = correction_row source id actor reason uuid now (next_event_id w.events) subject
    guard (event_ok row) integrity
    ok (record w { events = row ∷ w.events })

next_event_id-Below : (es : List RetentionEvent) → Below event_key (next_event_id es) es
unfolding next_event_id
next_event_id-Below es = go es (next_event_id es) (omega arith)
  where
    go : (fs : List RetentionEvent) (n : ℕ) → next_event_id fs ≤ n → Below event_key n fs
    go [] n l = tt
    go (e ∷ fs) n l = (omega arith, go fs n (omega arith))

-- The four cases, where that of a batch is out.
allowed :
    (i a x m n y r q : Bool)
    → (i && a && x) || (m && n && y) || false || (r && n && q) ≡ true
    → (i && a && true) || (m && n && true) || false || (r && n && true) ≡ true
allowed i a x m n y r q h = ground arith

-- A subject that an event may have, corrected: allowed but for a batch.
subject_ok-corrected :
    (t : String) (intake : Option String) (subject action : String)
    → subject_ok t intake subject action ≡ true
    → subject_ok t intake subject "correction_recorded" ≡ not (t == "batch")
unfolding subject_ok
subject_ok-corrected t intake subject action valid = elim (Bool-cases (t == "batch")) [
  | inl batch ↦ rw ((string_eq.same_iff t "batch").0 batch) (ground arith)
  | inr other ↦ rw other (
      allowed (t == "intake") (same_id intake subject) _ (t == "media") (is_none intake) _
        (t == "receipt") _ (rw other at valid))
]

and_left : (a b : Bool) → a && b ≡ true → a ≡ true
and_left a b h = ground arith

and_true : (a : Bool) → a && true ≡ a
and_true a = ground arith

module _ (text_of : ℕ → String) (json_of : String → String) where
  -- The row of a correction satisfies the constraints unless its target is a batch.
  correction_row-ok :
      (e : RetentionEvent) (id new_id : ℕ) (actor reason uuid : String) (now : ℕ)
      → event_ok e ≡ true
      → event_ok (
          correction_row text_of json_of retention_event id actor reason uuid now new_id
            (e.subject_type, e.subject_id, e.intake_id))
        ≡ not (e.subject_type == "batch")
  unfolding event_ok correction_row
  correction_row-ok e id new_id actor reason uuid now valid =
      let checked =
        and_left (subject_ok e.subject_type e.intake_id e.subject_id e.action) _ valid in
      and_true _ ∙ subject_ok-corrected e.subject_type e.intake_id e.subject_id e.action checked

  pub record_journal_correction-exact :
      (e : RetentionEvent) (id : ℕ) (actor reason uuid : String) (now : ℕ) (w : World)
      → find_event id w.events ≡ some e
      → event_ok e ≡ true
      → 0 < id
      → (actor == "") ≡ false
      → (reason == "") ≡ false
      → let row =
          correction_row text_of json_of retention_event id actor reason uuid now
            (next_event_id w.events)
            (e.subject_type, e.subject_id, e.intake_id) in
        Below event_key row.event_id w.events
        × (record_journal_correction text_of json_of retention_event id actor reason uuid now w ≡ (
            if e.subject_type == "batch"
            then err integrity
            else ok (record w { events = row ∷ w.events })))
  unfolding record_journal_correction correction_row
  record_journal_correction-exact e id actor reason uuid now w found valid positive named given =
      let positive' : (id == 0) ≡ false = ground arith in
      let row_ok = correction_row-ok e id (next_event_id w.events) actor reason uuid now valid in
      (
        next_event_id-Below w.events,
        rw (positive', named, given, found, row_ok, record_journal_correction) (ground arith),
      )
