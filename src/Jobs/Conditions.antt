-- ===== src/Jobs/Conditions.antt =====
-- Condition projection of the reconciler spine (src/sutradhara/jobs/reconcilers/conditions.py).
-- The table is a record of rows; a function that raises gives no table, since every caller's
-- session rolls back then. The components of a snapshot are a set: their sorted order, which only
-- numbers the rows, is not kept.
pub mod Observing
pub mod Projecting
pub mod Due
pub mod Axes
pub mod Keys
pub mod Append
pub mod Attempts
unfoldable pub use Observing.*
unfoldable pub use Projecting.*
