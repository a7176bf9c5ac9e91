-- ===== src/Retention/Examples.antt =====
-- The theorems on the retention journal, on concrete receipts.
mod Exporting
mod Shipped
mod Amending
mod Reporting
