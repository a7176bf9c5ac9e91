-- ===== src/Hdcache/Placement.antt =====
-- Disk placement (src/sutradhara/hdcache/placement.py). A float is its rank among the floats, so that
-- ranks compare as the floats do; a digest is its 32 bytes read as one number, which compares as
-- the bytes do.
pub mod Best
pub mod Choice
pub mod Spread
pub mod Catalog
pub mod Grouping
pub mod Signals
use sutradhara.Prelude.{
  ℕ, zero, suc, ◌+◌, ◌-◌, String, Bool, true, false, not, ◌&&◌, ◌||◌, Option, none, some, List, [],
  ◌∷◌, map, filter, any, ltb, leb, max, if◌then◌else◌, ◌==◌, string_eq, Result, ok, err,
}
use sutradhara.Prelude.Int.{ℤ, pos, negsuc, pos_part, ltb_ℤ, leb_ℤ}
use sutradhara.Prelude.Dict.{Dict, lookup, insert}
use sutradhara.Hdcache.Rows.{
  DiskStatus, CapacityStatus, CacheDisk, CacheEntry, is_active, is_ok, is_live,
}

pub data PlacementError : Type 0 where
  no_space : ℕ → PlacementError

-- `fractional_floor` is `math.ceil(capacity_bytes * reserve_fraction)`.
pub record PlacementConfig : Type 0 where
  pub spread_min_bytes : ℕ
  pub reserve_largest_expected_file_bytes : ℕ
  pub reserve_tmp_headroom_bytes : ℕ
  pub fractional_floor : ℤ → ℤ
  pub enclosure_spread : Bool

pub record DiskState : Type 0 where
  pub disk_id : String
  pub state : DiskStatus
  pub capacity_bytes : ℤ
  pub filled_bytes : ℤ
  pub filling_bytes : ℤ
  pub capacity_state : CapacityStatus
  pub enclosure : Option String
  pub slot : Option String

pub record PlacementContext : Type 0 where
  pub content_sha256 : String
  pub size_bytes : ℕ
  pub bundle_key : Option String
  pub sibling_disks : List String
  pub group_key : Option String
  pub group_disk_counts : Dict String ℕ

abbrev pub committed_bytes : DiskState → ℕ
committed_bytes disk = pos_part disk.filled_bytes + pos_part disk.filling_bytes

abbrev pub free_bytes : DiskState → ℕ
free_bytes disk = pos_part disk.capacity_bytes - committed_bytes disk

abbrev pub reserve_bytes : PlacementConfig → DiskState → ℕ
reserve_bytes config disk =
    max (config.reserve_largest_expected_file_bytes + config.reserve_tmp_headroom_bytes)
      (pos_part (config.fractional_floor disk.capacity_bytes))

-- Float division and the digest of a disk and a content.
pub record Numerics : Type 0 where
  pub one : ℕ
  pub divide : ℕ → ℕ → ℕ
  pub digest : String → String → ℕ

-- `(count, filled_ratio, tiebreak)`
pub record Key : Type 0 where
  pub count : ℤ
  pub ratio : ℕ
  pub tie : ℕ

-- Python's `<` of such tuples
unfoldable pub key_lt : Key → Key → Bool
key_lt a b =
    ltb_ℤ a.count b.count
    || (leb_ℤ a.count b.count && (ltb a.ratio b.ratio || (leb a.ratio b.ratio && ltb a.tie b.tie)))

-- `min(disks, key=key)`, the first of the least, where `best` is the first of the disks
unfoldable pub min_by : (DiskState → Key) → DiskState → List DiskState → DiskState
min_by key best [] = best
min_by key best (disk ∷ disks) =
    let better = min_by key disk disks in
    let same = min_by key best disks in if key_lt (key disk) (key best) then better else same

abbrev negate : ℕ → ℤ
negate zero = pos zero
negate (suc n) = negsuc n

abbrev pub is_sibling : PlacementContext → DiskState → Bool
is_sibling ctx disk = any (λ id. id == disk.disk_id) ctx.sibling_disks

abbrev pub count_on : PlacementContext → DiskState → ℕ
count_on ctx disk = elim (lookup disk.disk_id ctx.group_disk_counts) [ none ↦ 0 | some n ↦ n ]

abbrev pub is_grouped : PlacementContext → DiskState → Bool
is_grouped ctx disk = ltb 0 (count_on ctx disk)

-- A named enclosure; the empty name counts as none.
abbrev pub enclosure_of : DiskState → Option String
enclosure_of disk = elim disk.enclosure [ none ↦ none | some e ↦ if e == "" then none else some e ]

-- `disk.enclosure in used` for the enclosures of the siblings
unfoldable pub used : PlacementContext → List DiskState → String → Bool
used ctx [] e = false
used ctx (disk ∷ disks) e =
    let rest = used ctx disks e in
    elim (enclosure_of disk) [ none ↦ rest | some d ↦ is_sibling ctx disk && d == e || rest ]

unfoldable pub any_used : PlacementContext → List DiskState → Bool
any_used ctx disks = any (λ disk. is_sibling ctx disk && has_enclosure (enclosure_of disk)) disks
  where
    has_enclosure : Option String → Bool
    has_enclosure none = false
    has_enclosure (some e) = true

abbrev pub in_unused : PlacementContext → List DiskState → DiskState → Bool
in_unused ctx disks disk = elim (enclosure_of disk) [
  | none ↦ false
  | some e ↦ not (used ctx disks e)
]

abbrev is_empty : {A : Type 0} → List A → Bool
is_empty [] = true
is_empty _ = false

module _ (num : Numerics) (config : PlacementConfig) where
  abbrev pub filled_ratio : DiskState → ℕ
  filled_ratio disk =
      if leb_ℤ disk.capacity_bytes (pos 0)
      then num.one
      else num.divide (committed_bytes disk) (pos_part disk.capacity_bytes)

  abbrev key_of : PlacementContext → ℤ → DiskState → Key
  key_of ctx count disk = record {
    count = count;
    ratio = filled_ratio disk;
    tie = num.digest disk.disk_id ctx.content_sha256;
  }

  unfoldable pub small_group_key : PlacementContext → DiskState → Key
  small_group_key ctx disk = key_of ctx (negate (count_on ctx disk)) disk

  unfoldable pub large_group_key : PlacementContext → DiskState → Key
  large_group_key ctx disk = key_of ctx (pos (count_on ctx disk)) disk

  unfoldable pub balance_key : PlacementContext → DiskState → Key
  balance_key ctx disk = key_of ctx (pos 0) disk

  unfoldable pub is_viable : PlacementContext → DiskState → Bool
  is_viable ctx disk =
      is_active disk.state
      && is_ok disk.capacity_state
      && leb (ctx.size_bytes + reserve_bytes config disk) (free_bytes disk)

  abbrev pub viable_candidates : PlacementContext → List DiskState → List DiskState
  viable_candidates ctx = filter (is_viable ctx)

  -- The pools are taken apart where the code tests them for emptiness; `first` and `others` are the
  -- viable candidates.
  abbrev pub choose_grouped :
      PlacementContext → DiskState → List DiskState → List DiskState → DiskState
  choose_grouped ctx first others [] = min_by (balance_key ctx) first others
  choose_grouped ctx first others (d ∷ ds) = min_by (small_group_key ctx) d ds

  abbrev pub choose_bundled :
      PlacementContext → DiskState → List DiskState → List DiskState → DiskState
  choose_bundled ctx first others [] =
      choose_grouped ctx first others (filter (is_grouped ctx) (first ∷ others))
  choose_bundled ctx first others (d ∷ ds) = min_by (small_group_key ctx) d ds

  unfoldable pub choose_small : PlacementContext → DiskState → List DiskState → DiskState
  choose_small ctx first others =
      choose_bundled ctx first others (filter (is_sibling ctx) (first ∷ others))

  abbrev pub narrowest : PlacementContext → DiskState → List DiskState → List DiskState → DiskState
  narrowest ctx first others [] = min_by (large_group_key ctx) first others
  narrowest ctx first others (d ∷ ds) = min_by (large_group_key ctx) d ds

  unfoldable pub choose_narrowed :
      PlacementContext → List DiskState → DiskState → List DiskState → DiskState
  choose_narrowed ctx disks first others =
      if config.enclosure_spread && not (is_empty ctx.sibling_disks) && any_used ctx disks
      then narrowest ctx first others (filter (in_unused ctx disks) (first ∷ others))
      else min_by (large_group_key ctx) first others

  abbrev pub choose_apart :
      PlacementContext → List DiskState → DiskState → List DiskState → List DiskState → DiskState
  choose_apart ctx disks first others [] = choose_narrowed ctx disks first others
  choose_apart ctx disks first others (d ∷ ds) = choose_narrowed ctx disks d ds

  unfoldable pub choose_large :
      PlacementContext → List DiskState → DiskState → List DiskState → DiskState
  choose_large ctx disks first others =
      choose_apart ctx disks first others
        (filter (λ disk. not (is_sibling ctx disk)) (first ∷ others))

  abbrev pub choose_viable :
      PlacementContext → List DiskState → List DiskState → Result PlacementError DiskState
  choose_viable ctx disks [] = err (no_space ctx.size_bytes)
  choose_viable ctx disks (d ∷ ds) = ok (
      if ltb ctx.size_bytes config.spread_min_bytes
      then choose_small ctx d ds
      else choose_large ctx disks d ds)

  -- `DefaultDiskPlacementPolicy.choose`, with the disk in place of its id
  unfoldable pub choose : PlacementContext → List DiskState → Result PlacementError DiskState
  unfolding choose_small choose_large choose_narrowed is_viable min_by
  choose ctx disks = choose_viable ctx disks (viable_candidates ctx disks)
