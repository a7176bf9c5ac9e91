-- ===== src/Hdcache/Lifecycle.antt =====
-- Disk lifecycle (`HdcacheLifecycleManager` of src/sutradhara/hdcache/lifecycle.py). The provisioner and
-- the sentinel are parameters; each transaction is one step on the tables.
pub mod Losses
pub mod Enrolment
pub mod Forgetting
use sutradhara.Prelude.{
  ℕ, zero, suc, ◌+◌, String, Bool, true, false, not, ◌&&◌, Option, none, some, List, [], ◌∷◌, ◌++◌,
  any, filter, length, max, if◌then◌else◌, ◌==◌, nat_beq, string_eq, Result, ok, err, ◌>>=◌,
}
use sutradhara.Prelude.Int.{ℤ, pos}
use sutradhara.Hdcache.DiskIds.{id_of, number_of}
use sutradhara.Hdcache.Rows.{
  DiskStatus, active, retiring, dead, CapacityStatus, CacheDisk, CacheEntry, lost, is_dead, is_lost,
}

-- The reasons for which `LifecycleError` is raised.
pub data LifecycleError : Type 0 where
  unknown_disk mounted probe_failed not_dead has_entries : LifecycleError
  already_enrolled enrolment_failed cleanup_failed : LifecycleError

-- `entries` is in order of `content_sha256`, its primary key.
pub record Tables : Type 0 where
  pub disks : List CacheDisk
  pub entries : List CacheEntry

unfoldable pub find_disk : String → List CacheDisk → Option CacheDisk
find_disk id [] = none
find_disk id (d ∷ ds) = let rest = find_disk id ds in if d.disk_id == id then some d else rest

unfoldable pub save_disk : CacheDisk → List CacheDisk → List CacheDisk
save_disk disk [] = []
save_disk disk (d ∷ ds) = (if d.disk_id == disk.disk_id then disk else d) ∷ save_disk disk ds

unfoldable pub disk_or_error : String → Tables → Result LifecycleError CacheDisk
disk_or_error id t = elim (find_disk id t.disks) [ none ↦ err unknown_disk | some d ↦ ok d ]

abbrev pub row_in_state : DiskStatus → CacheDisk → CacheDisk
row_in_state state d = record d {
  state = state;
  filled_bytes = if is_dead state then pos 0 else d.filled_bytes;
}

unfoldable pub set_disk_state :
    String → DiskStatus → Tables → Result LifecycleError (Tables × CacheDisk)
unfolding disk_or_error
set_disk_state id state t = do
  d ← disk_or_error id t
  ok (record t { disks = save_disk (row_in_state state d) t.disks }, row_in_state state d)

-- `retire`
unfoldable pub retire : String → Tables → Result LifecycleError (Tables × CacheDisk)
unfolding set_disk_state
retire id t = set_disk_state id retiring t

-- One loss of a disk, as the entries record it.
pub record Drill : Type 0 where
  pub disk_id : String
  pub drill_id : String
  pub lost_at : ℕ

abbrev pub lost_entry : Drill → CacheEntry → CacheEntry
lost_entry drill e = record e {
  state = lost;
  lost_origin_disk_id = some drill.disk_id;
  lost_drill_id = some drill.drill_id;
  lost_at = some drill.lost_at;
  refilled_at = none;
}

-- the rows that a batch selects
unfoldable pub is_losing : String → CacheEntry → Bool
is_losing id e = e.disk_id == id && not (is_lost e.state)

-- `_mark_lost_batch`: the first `limit` of the selected rows are lost
unfoldable pub mark_lost_batch : Drill → ℕ → List CacheEntry → List CacheEntry × ℕ
mark_lost_batch drill limit [] = ([], 0)
mark_lost_batch drill zero (e ∷ es) = (e ∷ es, 0)
mark_lost_batch drill (suc limit) (e ∷ es) =
    let (hit, n) = mark_lost_batch drill limit es in
    let (missed, m) = mark_lost_batch drill (suc limit) es in
    if is_losing drill.disk_id e then (lost_entry drill e ∷ hit, suc n) else (e ∷ missed, m)

-- The loop of `mark_dead` with the counts of its batches; `none` is a loop that is still running when the
-- fuel is used up.
unfoldable pub mark_lost : ℕ → Drill → ℕ → List CacheEntry → Option (List CacheEntry × List ℕ)
mark_lost zero drill batch_size es = none
mark_lost (suc fuel) drill batch_size es =
    let (es', changed) = mark_lost_batch drill batch_size es in
    let onward = mark_lost fuel drill batch_size es' in
    if nat_beq changed 0
    then some (es', [])
    else elim onward [ none ↦ none | some (after, counts) ↦ some (after, changed ∷ counts) ]

unfoldable pub sum : List ℕ → ℕ
sum [] = 0
sum (n ∷ ns) = n + sum ns

pub record DeadDiskResult : Type 0 where
  pub disk_id : String
  pub entries_lost : ℕ
  pub batches : ℕ
  pub drill_id : Option String

-- `None` is a probe of the mount state that raised.
abbrev pub refuse_mounted : Bool → Option Bool → Result LifecycleError (Unit {0})
refuse_mounted confirm none = err probe_failed
refuse_mounted confirm (some b) = if b && not confirm then err mounted else ok tt

abbrev pub dead_result : Drill → List ℕ → DeadDiskResult
dead_result drill counts = record {
  disk_id = drill.disk_id;
  entries_lost = sum counts;
  batches = length counts;
  drill_id = if nat_beq (sum counts) 0 then none else some drill.drill_id;
}

abbrev pub after_losses :
    Tables → Drill → Option (List CacheEntry × List ℕ) → Option (Tables × DeadDiskResult)
after_losses t drill none = none
after_losses t drill (some (es, counts)) =
    some (record t { entries = es }, dead_result drill counts)

-- `mark_dead`; the inner option is the loop on its fuel
unfoldable pub mark_dead :
    ℕ
    → Option Bool
    → Bool
    → ℕ
    → Drill
    → Tables
    → Result LifecycleError (Option (Tables × DeadDiskResult))
unfolding mark_lost set_disk_state
mark_dead fuel probe confirm_mounted batch_size drill t = do
  d ← disk_or_error drill.disk_id t
  u ← refuse_mounted confirm_mounted probe
  (t', row) ← set_disk_state drill.disk_id dead t
  ok (after_losses t' drill (mark_lost fuel drill batch_size t'.entries))

abbrev forgettable : Bool → CacheDisk → Result LifecycleError CacheDisk
forgettable held d =
    if not (is_dead d.state) then err not_dead else if held then err has_entries else ok d

-- `forget`: any entry of the disk counts, a lost one too
unfoldable pub forget : String → Tables → Result LifecycleError CacheDisk
unfolding disk_or_error
forget id t = do d ← disk_or_error id t; forgettable (any (λ e. e.disk_id == id) t.entries) d

pub record ProvisionedDisk : Type 0 where
  pub serial : String
  pub enclosure : Option String
  pub slot : Option String
  pub capacity_bytes : ℤ

-- What the hardware does: `none` and `false` are a raise.
pub record Hardware : Type 0 where
  pub provision : String → Option ProvisionedDisk
  pub sentinel : ProvisionedDisk → Bool
  pub cleanup : ProvisionedDisk → Bool

abbrev or_zero : Option ℕ → ℕ
or_zero none = 0
or_zero (some n) = n

unfoldable pub max_number : List CacheDisk → ℕ
max_number [] = 0
max_number (d ∷ ds) = max (or_zero (number_of d.disk_id)) (max_number ds)

-- `_next_disk_id`
abbrev pub next_disk_id : List CacheDisk → String
next_disk_id ds = id_of (max_number ds + 1)

-- `_serial_exists`, and `_enrolled_serials`
unfoldable pub serial_exists : String → List CacheDisk → Bool
serial_exists serial ds = any (λ d. d.serial == serial) ds

abbrev pub enrolled_row : String → ProvisionedDisk → CacheDisk
enrolled_row id p = record {
  disk_id = id;
  serial = p.serial;
  enclosure = p.enclosure;
  slot = p.slot;
  state = active;
  capacity_state = CapacityStatus.ok;
  capacity_bytes = p.capacity_bytes;
  filled_bytes = pos 0;
}

-- what `_cleanup_failed_enrollment` makes of the error
abbrev cleaned : Hardware → ProvisionedDisk → LifecycleError → LifecycleError
cleaned hw p e = if hw.cleanup p then e else cleanup_failed

abbrev enrol_provisioned :
    Hardware → String → Tables → Option ProvisionedDisk → Result LifecycleError (Tables × CacheDisk)
enrol_provisioned hw id t none = err enrolment_failed
enrol_provisioned hw id t (some p) =
    if not (hw.sentinel p)
    then err (cleaned hw p enrolment_failed)
    else if serial_exists p.serial t.disks
    then err (cleaned hw p already_enrolled)
    else ok (record t { disks = t.disks ++ enrolled_row id p ∷ [] }, enrolled_row id p)

abbrev candidate_enrolled : Option String → List CacheDisk → Bool
candidate_enrolled none ds = false
candidate_enrolled (some serial) ds = serial_exists serial ds

-- `_add_disk`, of a device with the serial that a scan has found for it
unfoldable pub add_disk :
    Hardware → Option String → Tables → Result LifecycleError (Tables × CacheDisk)
add_disk hw candidate t =
    let id = next_disk_id t.disks in
    if candidate_enrolled candidate t.disks
    then err already_enrolled
    else enrol_provisioned hw id t (hw.provision id)
