-- ===== src/Hdcache/Examples.antt =====
-- Placements (src/sutradhara/hdcache/placement.py) on concrete disks.
pub mod Disks
use sutradhara.Prelude.{
  ℕ, ◌↔◌, ◌+◌, ◌≤◌, ◌≡◌, refl, String, Bool, true, false, Option, none, some, List, [], ◌∷◌, any,
  filter, length, arith, string_eq, Result, ok, err,
}
use sutradhara.Prelude.Int.{pos, pos_part}
use sutradhara.Prelude.Dict.{lookup}
use sutradhara.Hdcache.Rows.{DiskStatus, CapacityStatus, CacheEntry, EntryState, is_active, is_ok}
use sutradhara.Hdcache.Placement.{
  DiskState, PlacementConfig, PlacementContext, Numerics, choose, viable_candidates, is_viable,
  is_sibling, count_on, committed_bytes, reserve_bytes, used, any_used, key_lt, min_by,
  large_group_key, small_group_key, choose_large, choose_small,
}
use sutradhara.Hdcache.Placement.Catalog.{build_placement_context}
use sutradhara.Hdcache.Placement.Choice.{SmallChoice, choose-SmallChoice}
use sutradhara.Hdcache.Placement.Spread.{
  LargeChoice, choose-LargeChoice, Placed, choose-Placed, is_viable-fits,
}
use sutradhara.Hdcache.Placement.Signals.{HasOther, CountsOthers, build_placement_context-Counts}

abbrev numbers : Numerics
numbers = record { one = 1000; divide = λ a b. a; digest = λ disk content. 0 }

abbrev spreading : PlacementConfig
spreading = record {
  spread_min_bytes = 10;
  reserve_largest_expected_file_bytes = 5;
  reserve_tmp_headroom_bytes = 1;
  fractional_floor = λ c. pos 2;
  enclosure_spread = true;
}

abbrev disk : String → Option String → ℕ → DiskState
disk id enclosure filled = record {
  disk_id = id;
  state = DiskStatus.active;
  capacity_bytes = pos 100;
  filled_bytes = pos filled;
  filling_bytes = pos 0;
  capacity_state = CapacityStatus.ok;
  enclosure = enclosure;
  slot = none;
}

-- The first disk holds the bundle and shares its enclosure with the second.
abbrev disks : List DiskState
disks =
    disk "d001" (some "left") 10 ∷ disk "d002" (some "left") 0 ∷ disk "d003" (some "right") 20 ∷ []

abbrev context : ℕ → PlacementContext
context size = record {
  content_sha256 = "c";
  size_bytes = size;
  bundle_key = some "b";
  sibling_disks = "d001" ∷ [];
  group_key = none;
  group_disk_counts = [];
}

small_returns : choose numbers spreading (context 4) disks ≡ ok (disk "d001" (some "left") 10)
unfolding choose
small_returns = refl

choose-SmallChoice_example :
    SmallChoice numbers spreading
      (context 4)
      (viable_candidates numbers spreading (context 4) disks)
      (disk "d001" (some "left") 10)
choose-SmallChoice_example =
    choose-SmallChoice numbers spreading (context 4) disks (disk "d001" (some "left") 10) refl
      small_returns

large_returns : choose numbers spreading (context 40) disks ≡ ok (disk "d003" (some "right") 20)
unfolding choose any_used used
large_returns = refl

choose-LargeChoice_example :
    LargeChoice numbers spreading
      (context 40)
      disks
      (viable_candidates numbers spreading (context 40) disks)
      (disk "d003" (some "right") 20)
choose-LargeChoice_example =
    choose-LargeChoice numbers spreading (context 40) disks (disk "d003" (some "right") 20) refl
      large_returns

choose-Placed_example :
    Placed numbers spreading (context 40) disks (choose numbers spreading (context 40) disks)
choose-Placed_example = choose-Placed numbers spreading (context 40) disks

third_viable : is_viable numbers spreading (context 40) (disk "d003" (some "right") 20) ≡ true
unfolding is_viable
third_viable = refl

is_viable-fits_example :
    (is_active DiskStatus.active ≡ true)
    × (is_ok CapacityStatus.ok ≡ true)
    × (20 + 0 + 40 + reserve_bytes spreading (disk "d003" (some "right") 20) ≤ 100)
is_viable-fits_example =
    is_viable-fits numbers spreading (context 40) (disk "d003" (some "right") 20) (omega arith)
      third_viable

abbrev pub entry : CacheEntry
entry = record {
  content_sha256 = "x";
  disk_id = "d001";
  bundle_key = some "b";
  group_key = some "g";
  state = EntryState.present;
  lost_origin_disk_id = none;
  lost_drill_id = none;
  lost_at = none;
  refilled_at = none;
}

build_placement_context-Counts_example :
    let ctx = build_placement_context "c" 40 (some "b") (some "g") (entry ∷ []) in
    ((is_sibling ctx (disk "d001" none 0) ≡ true) ↔ HasOther "d001" (some "b") "c" (entry ∷ []))
    × CountsOthers "d001" (some "g") "c" (entry ∷ []) (count_on ctx (disk "d001" none 0))
build_placement_context-Counts_example =
    build_placement_context-Counts "c" 40 (some "b") (some "g") (entry ∷ []) (disk "d001" none 0)
