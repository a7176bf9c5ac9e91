-- ===== src/Hdcache/Rows.antt =====
-- The rows of the cache (src/sutradhara/hdcache/models.py), with the columns that placement and the
-- lifecycle read or write. Times are microseconds since the epoch.
use sutradhara.Prelude.{ℕ, String, Bool, true, false, Option}
use sutradhara.Prelude.Int.{ℤ}

pub data DiskStatus : Type 0 where
  active absent retiring dead : DiskStatus

pub data CapacityStatus : Type 0 where
  ok over_reserve : CapacityStatus

pub data EntryState : Type 0 where
  filling present lost : EntryState

abbrev pub is_active : DiskStatus → Bool
is_active active = true
is_active _ = false

abbrev pub is_dead : DiskStatus → Bool
is_dead dead = true
is_dead _ = false

abbrev pub is_ok : CapacityStatus → Bool
is_ok ok = true
is_ok over_reserve = false

-- `LIVE_ENTRY_STATES`
abbrev pub is_live : EntryState → Bool
is_live lost = false
is_live _ = true

abbrev pub is_lost : EntryState → Bool
is_lost lost = true
is_lost _ = false

pub record CacheDisk : Type 0 where
  pub disk_id : String
  pub serial : String
  pub enclosure : Option String
  pub slot : Option String
  pub state : DiskStatus
  pub capacity_state : CapacityStatus
  pub capacity_bytes : ℤ
  pub filled_bytes : ℤ

pub record CacheEntry : Type 0 where
  pub content_sha256 : String
  pub disk_id : String
  pub bundle_key : Option String
  pub group_key : Option String
  pub state : EntryState
  pub lost_origin_disk_id : Option String
  pub lost_drill_id : Option String
  pub lost_at : Option ℕ
  pub refilled_at : Option ℕ
