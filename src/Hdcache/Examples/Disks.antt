-- ===== src/Hdcache/Examples/Disks.antt =====
-- The life of one cache disk (src/sutradhara/hdcache/lifecycle.py) on concrete tables.
use sutradhara.Prelude.{
  ◌<◌, ◌≡◌, refl, true, false, none, some, [], ◌∷◌, arith, if◌then◌else◌, string_eq, ok, err,
}
use sutradhara.Prelude.Int.{pos}
use sutradhara.Hdcache.DiskIds.{
  id_of, number_of, codes, number_behind, read_digits, pad, decimal, digit,
}
use sutradhara.Hdcache.Rows.{CacheDisk, CapacityStatus, dead, active}
use sutradhara.Hdcache.Lifecycle.{
  Drill, Tables, DeadDiskResult, has_entries, Hardware, ProvisionedDisk, row_in_state, find_disk,
  is_losing, mark_dead, forget, add_disk, enrolled_row, serial_exists, max_number,
}
use sutradhara.Hdcache.Lifecycle.Losses.{Died, losing, mark_dead-Died}
use sutradhara.Hdcache.Lifecycle.Forgetting.{forget_after_death, holds_any}
use sutradhara.Hdcache.Lifecycle.Enrolment.{Enrolled, add_disk-Enrolled}
use sutradhara.Hdcache.Examples.{entry}

abbrev first_disk : CacheDisk
first_disk = record {
  disk_id = "d001";
  serial = "s1";
  enclosure = none;
  slot = none;
  state = active;
  capacity_state = CapacityStatus.ok;
  capacity_bytes = pos 100;
  filled_bytes = pos 10;
}

abbrev tables : Tables
tables = record { disks = first_disk ∷ []; entries = entry ∷ [] }

abbrev failure : Drill
failure = record { disk_id = "d001"; drill_id = "d001:20260101T000000Z"; lost_at = 7 }

first_found : find_disk "d001" tables.disks ≡ some first_disk
unfolding find_disk
first_found = refl

one_losing : losing "d001" tables.entries < 2
unfolding is_losing
one_losing = omega arith

mark_dead-Died_example :
    (t' : Tables) × (r : DeadDiskResult) × (mark_dead 2 (some false) false 1000 failure tables
      ≡ ok (some (t', r)))
    × Died failure first_disk tables t' r
mark_dead-Died_example =
    mark_dead-Died failure false false 1000 2 tables first_disk first_found refl (omega arith)
      one_losing

died :
    (t' : Tables) × (r : DeadDiskResult) × (mark_dead 2 (some false) false 1000 failure tables
      ≡ ok (some (t', r)))
    × Died failure first_disk tables t' r
died =
    mark_dead-Died failure false false 1000 2 tables first_disk first_found refl (omega arith)
      one_losing

forget_after_death_example : forget "d001" died.0 ≡ (
    if holds_any "d001" tables.entries then err has_entries else ok (row_in_state dead first_disk))
forget_after_death_example = forget_after_death failure first_disk tables died.0 died.1 died.3

provisioned : ProvisionedDisk
provisioned = record { serial = "s2"; enclosure = none; slot = none; capacity_bytes = pos 5 }

abbrev hardware : Hardware
hardware = record { provision = λ id. some provisioned; sentinel = λ p. true; cleanup = λ p. true }

new_disk : CacheDisk
new_disk = enrolled_row "d002" provisioned

grown : Tables
grown = record { disks = first_disk ∷ new_disk ∷ []; entries = entry ∷ [] }

add_returns : add_disk hardware (some "s2") tables ≡ ok (grown, new_disk)
unfolding add_disk grown new_disk serial_exists provisioned max_number id_of number_of codes
    number_behind read_digits pad decimal digit
add_returns = refl

add_disk-Enrolled_example : Enrolled tables grown new_disk
add_disk-Enrolled_example = add_disk-Enrolled hardware (some "s2") tables grown new_disk add_returns
