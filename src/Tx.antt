-- ===== src/Tx.antt =====
-- Transactions: cmd/schedulerd/scheduler/txgen.cc, tx.cc, and `class Transaction` of scheduler.h.
pub mod JobType
mod Model
pub mod Merge
pub mod Submit
pub mod Delete
pub mod Order
pub mod Generate
pub mod Conflicts
pub mod Links
pub mod Single
unfoldable pub use Model.*
