-- ===== src/Hdcache.antt =====
-- The expendable disk cache of src/sutradhara/hdcache: its rows, placement, and disk lifecycle.
pub mod Rows
pub mod DiskIds
pub mod Placement
pub mod Lifecycle
pub mod Examples
