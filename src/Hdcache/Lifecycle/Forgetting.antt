-- ===== src/Hdcache/Lifecycle/Forgetting.antt =====
-- `forget` after the death of a disk (src/sutradhara/hdcache/lifecycle.py).
use sutradhara.Prelude.{
  ◌≡◌, refl, String, Bool, List, [], ◌∷◌, map, any, arith, if◌then◌else◌, ◌==◌, string_eq, ok, err,
}
use sutradhara.Hdcache.Rows.{CacheDisk, CacheEntry, dead}
use sutradhara.Hdcache.Lifecycle.{
  Drill, Tables, DeadDiskResult, has_entries, row_in_state, forget, disk_or_error,
}
use sutradhara.Hdcache.Lifecycle.Losses.{marked, Died}

abbrev pub holds_any : String → List CacheEntry → Bool
holds_any id = any (λ e. e.disk_id == id)

any-marked :
    (drill : Drill) (id : String) (es : List CacheEntry)
    → holds_any id (map (marked drill) es) ≡ holds_any id es
any-marked drill id [] = refl
any-marked drill id (e ∷ es) = ground (arith, any-marked drill id es)

-- After a death that left the disk dead and its entries marked, the disk is not forgotten if an
-- entry was on it, lost or not, and is forgotten if none was.
pub forget_after_death :
    (drill : Drill) (d : CacheDisk) (t t' : Tables) (r : DeadDiskResult)
    → Died drill d t t' r
    → forget drill.disk_id t'
      ≡ (if holds_any drill.disk_id t.entries then err has_entries else ok (row_in_state dead d))
unfolding forget disk_or_error
forget_after_death drill d t t' r died = ground (
  arith,
  string_eq.same_iff drill.disk_id drill.disk_id,
  died.disks drill.disk_id,
  died.entries,
  any-marked drill drill.disk_id t.entries,
)
