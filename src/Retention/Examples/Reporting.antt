-- ===== src/Retention/Examples/Reporting.antt =====
-- A whole export to a destination that stops after one call (src/sutradhara/retention_journal.py).
use sutradhara.Prelude.{◌≡◌, refl, false, none, some, [], ok}
use sutradhara.Jobs.Conditions.{Conditions}
use sutradhara.Jobs.Conditions.Keys.{IsTable}
use sutradhara.Retention.Shipping.{Destination}
use sutradhara.Retention.Status.{unset, stale_threshold, default_stale_seconds}
use sutradhara.Retention.Exporting.{export_journal}
use sutradhara.Retention.Exporting.Reported.{Reported, export_journal-Reported}
use sutradhara.Retention.Examples.Exporting.{toy_hash, toy_digests, with_event, Steps-to_event}
use sutradhara.Retention.Examples.Shipped.{by_kind}

abbrev no_conditions : Conditions
no_conditions = record { rows = []; components = []; next_id = 1 }

abbrev flaky : Destination
flaky = record { objects = []; calls = 1 }

no_conditions-IsTable : IsTable no_conditions
no_conditions-IsTable = record { ids = tt; keys = tt; below = tt }

default_set : stale_threshold none unset ≡ ok default_stale_seconds
unfolding stale_threshold
default_set = refl

export_journal-Reported_example :
    Reported toy_hash by_kind
      (λ e. "unreachable")
      (λ s. "stale")
      unset
      20
      9
      with_event
      no_conditions
      (some flaky)
      (export_journal toy_hash by_kind
        (λ e. "unreachable")
        (λ s. "stale")
        unset
        20
        9
        false
        false
        (record { world = with_event; conditions = no_conditions; destination = some flaky }))
export_journal-Reported_example =
    export_journal-Reported toy_hash by_kind (λ e. "unreachable") (λ s. "stale") unset 20 9
      default_stale_seconds with_event no_conditions (some flaky) toy_digests default_set
      Steps-to_event no_conditions-IsTable
