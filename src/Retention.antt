-- ===== src/Retention.antt =====
-- Receipts of retention and their exported journal (src/sutradhara/retention_journal.py).
pub mod Rows
pub mod Journal
pub mod Publishing
pub mod Walking
pub mod Directory
pub mod Export
pub mod Shipping
pub mod Inspection
pub mod Corrections
pub mod Status
pub mod Exporting
pub mod Examples
