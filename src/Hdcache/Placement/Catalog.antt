-- ===== src/Hdcache/Placement/Catalog.antt =====
-- What a placement reads from the catalog (`build_placement_context`, `disk_states_from_catalog`,
-- `choose_placement` of src/sutradhara/hdcache/placement.py).
use sutradhara.Prelude.{
  ℕ, suc, String, Bool, false, not, ◌&&◌, Option, none, some, List, [], ◌∷◌, map, filter, ◌==◌,
  string_eq, Result,
}
use sutradhara.Prelude.Int.{pos}
use sutradhara.Prelude.Dict.{Dict, lookup, insert}
use sutradhara.Hdcache.Rows.{CacheDisk, CacheEntry, is_live}
use sutradhara.Hdcache.Placement.{
  DiskState, PlacementConfig, PlacementContext, PlacementError, Numerics, choose,
}

-- The live entries that a signal looks at: those of its key but of another content.
unfoldable pub matches : (CacheEntry → Option String) → String → String → CacheEntry → Bool
matches key_of key content e =
    is_live e.state
    && not (e.content_sha256 == content)
    && elim (key_of e) [ none ↦ false | some k ↦ k == key ]

unfoldable pub count_disks : List CacheEntry → Dict String ℕ
count_disks [] = []
count_disks (e ∷ es) =
    let rest = count_disks es in
    insert e.disk_id (suc (elim (lookup e.disk_id rest) [ none ↦ 0 | some n ↦ n ])) rest

unfoldable pub build_placement_context :
    String → ℕ → Option String → Option String → List CacheEntry → PlacementContext
unfolding count_disks matches
build_placement_context content size bundle_key group_key entries = record {
  content_sha256 = content;
  size_bytes = size;
  bundle_key = bundle_key;
  sibling_disks = elim bundle_key [
    | none ↦ []
    | some key ↦ map (λ e. e.disk_id) (filter (matches (λ e. e.bundle_key) key content) entries)
  ];
  group_key = group_key;
  group_disk_counts = elim group_key [
    | none ↦ []
    | some key ↦ count_disks (filter (matches (λ e. e.group_key) key content) entries)
  ];
}

-- The rows stand in order of their ids.
unfoldable pub disk_states_from_catalog : List CacheDisk → List DiskState
disk_states_from_catalog = map (λ row. record {
  disk_id = row.disk_id;
  state = row.state;
  capacity_bytes = row.capacity_bytes;
  filled_bytes = row.filled_bytes;
  filling_bytes = pos 0;
  capacity_state = row.capacity_state;
  enclosure = row.enclosure;
  slot = row.slot;
})

unfoldable pub choose_placement :
    Numerics
    → PlacementConfig
    → String
    → ℕ
    → Option String
    → Option String
    → List CacheDisk
    → List CacheEntry
    → Result PlacementError DiskState
unfolding choose build_placement_context disk_states_from_catalog
choose_placement num config content size bundle_key group_key disks entries =
    choose num config (build_placement_context content size bundle_key group_key entries)
      (disk_states_from_catalog disks)
