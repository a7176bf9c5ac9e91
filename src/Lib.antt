-- ===== src/Lib.antt =====
-- Sutradhara: the job engine, the disk cache and the retention journal of a media archive.
--
-- The program keeps a queue of jobs in a database. A worker claims jobs that fit its counted pools, runs a
-- handler for each, and writes for every run one attempt and, for a job of a reconciler, one condition.
-- Reconcilers observe reality into the same condition table and submit the jobs. The disk cache places
-- files on enrolled disks and follows the life of a disk. The retention journal exports the receipts of the
-- database into a hash chain of files, which it ships to a second machine and checks; its alarms are
-- conditions of the jobs' table.
--
-- Prelude: Boolean tests, lists, results (a Python exception is a value), dicts (association lists)
-- and signed integers, over the native numbers.
--
-- Jobs models src/sutradhara/jobs.
--   Jobs.Leases is leases.py: normalize_required_resources, and LeaseManager as a record of capacities and
--   leases, each method one step under its lock.
--   Jobs.Config is config.py: RetryPolicy and jittered_backoff_seconds. Delays are microseconds, random.uniform
--   is the parameter draw, and float() raises where Python's does.
--   Jobs.Model is models.py: the columns of job, job_attempt, reconciliation_condition, condition_component.
--   Jobs.Conditions is reconcilers/conditions.py: record_observation, record_condition, reopen_condition.
--   Jobs.Context is JobContext of registry.py with job_context and attempt_detail of engine.py.
--   Jobs.Store is the database as one session sees it, with record_attempt of attempts.py. The catalog
--   tables of the handlers are one value of a type parameter.
--   Jobs.Engine and Jobs.Run are engine.py: submit, claims and candidates, run_one, apply_retry_policy,
--   reset_orphaned_running_jobs, run_pending. A handler and a dispatch gate are parameters. A raise gives no
--   database, since the session of the caller rolls back; the savepoint of a handler is the database
--   that run_one had before it.
--   Jobs.Worker is worker.py: the claiming transaction with its reservations, the tries of an
--   execution, the pending failure records and the recovery at the head of a drain, and its loop as a
--   step relation in which other sessions commit at any moment. Any statement may find the database
--   locked.
--
-- Hdcache models src/sutradhara/hdcache.
--   Hdcache.Rows is models.py, Hdcache.Placement is placement.py, Hdcache.Lifecycle is lifecycle.py. Floats and
--   digests are their ranks; hardware is a parameter. Hdcache.DiskIds prints the id of a disk and reads its
--   number back as the program does.
--
-- Retention models src/sutradhara/retention_journal.py, with the tables of catalog/models.py that it uses.
--   Retention.Rows is the rows of verify_receipt and retention_event and their payloads, Retention.Journal the
--   envelopes, the footers and _validate_footer, _state_from_footer and _read_footer. A file is the list
--   of its lines as json.loads reads them. _hash_json is the parameter hash_json, and a theorem about
--   changed entries names two documents with one hash instead of assuming that there are none.
--   Retention.Publishing is _publish_segment, Retention.Walking _check_segment, Retention.Directory
--   _published_segments and the loop of check_journal, Retention.Export the rest of _export_locked up to
--   the shipping, with the hook between publication and checkpoint as a flag that makes it raise.
--   Retention.Shipping is _ship_segments and the destinations, which answer a number of calls and then
--   raise. Retention.Inspection is check_journal with _projection_mismatches, Retention.Corrections
--   record_journal_correction against the constraints of its table, Retention.Status
--   journal_operational_status and the alarms, Retention.Exporting export_journal and the end of
--   _export_locked, with the process lock as a flag.
--
-- Fuel and bounds. The loop of mark_dead runs on fuel, and one more than the entries to lose is enough. With a
-- positive limit, one more than it is enough for run_pending; without one, its handlers decide. Every other
-- loop is structural: a claiming loop by the claims that it may still make, an execution by its tries,
-- the others by their lists. Integers of the database are unbounded.
--
-- Not modelled: a future whose result raises and a claim that raises out of drain, both of which leave
-- drain, so that its relation has no step for them; in the life of a job (Jobs.Worker.Lifetime, whose
-- steps are those of the worker) a run that claims its job itself, as run_pending does; the parsing of
-- configuration, worker and version names of attempts, log events, the scan, listing and summary of
-- disks, the range checks of the placement settings, the journal's directory and destination settings,
-- key checks and file system calls, and every other part of the program: cache fill, the retention
-- gate, archive bundles, arrangements, intake, keys, the services and the command line.
--
-- The modules named Examples run the theorems on concrete rows.
pub mod Hdcache
pub mod Jobs
pub mod Prelude
pub mod Retention
