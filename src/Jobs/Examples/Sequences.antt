-- ===== src/Jobs/Examples/Sequences.antt =====
-- Two turns of the sequential run (src/sutradhara/jobs/engine.py) on a queue with one pending job.
use sutradhara.Prelude.{ℕ, String, Bool, ◌≡◌, Option, none, some, [], arith}
use sutradhara.Jobs.Leases.{LeaseManager}
use sutradhara.Jobs.Store.{Db}
use sutradhara.Jobs.Model.{Job}
use sutradhara.Jobs.Engine.{Engine}
use sutradhara.Jobs.Run.{Instants}
use sutradhara.Jobs.Run.Sequence.{Ran, run_pending, Stopped, run_pending-Stopped}
use sutradhara.Jobs.Examples.{three_jobs}
use sutradhara.Jobs.Examples.Running.{clock, counts, counts-KeepsRow, only, message, str_int}

abbrev clocks : ℕ → Instants
clocks turn = clock

abbrev no_gates : String → Option (Db ℕ → Job → Option Bool)
no_gates kind = none

abbrev no_pools : LeaseManager
no_pools = record { capacities = []; leased = [] }

run_pending-Stopped_example :
    (out : Engine (Db ℕ × Ran)) × (run_pending clocks "host" str_int message
        (only counts)
        three_jobs
        no_gates
        no_pools
        3
        2
        three_jobs
      ≡ some out)
    × Stopped clocks "host" str_int message
        (only counts)
        three_jobs
        no_gates
        no_pools
        0
        2
        three_jobs
        out
run_pending-Stopped_example =
    run_pending-Stopped clocks "host" str_int message (only counts) three_jobs no_gates no_pools
      counts-KeepsRow 2 3 three_jobs (omega arith) (omega arith)
