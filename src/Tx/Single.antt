-- ===== src/Tx/Single.antt =====
-- Merging leaves an object at most one job.
pub mod Lists
pub mod Merges
