-- ===== src/Jobs.antt =====
-- The job engine of src/sutradhara/jobs: resource leases, conditions, the engine and the worker.
pub mod Json
pub mod Leases
pub mod Config
pub mod Model
pub mod Conditions
pub mod Context
pub mod Store
pub mod Engine
pub mod Run
pub mod Worker
pub mod Examples
