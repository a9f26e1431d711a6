-- ===== src/Objects.antt =====
-- cmd/schedulerd/scheduler/object.h, and the object functions of scheduler/scheduler.cc.
-- A `Schedulable::SPtr` is an index into `heap`: the scheduler's set `objects` keeps every object
-- alive, so no index is ever freed. An `Edge` never changes once it is made, so an edge stands in
-- the lists `edges` and `edges_to` as a value.
mod Registry
pub mod EdgeType
pub mod Resolve
pub mod Sound
pub mod Edges
pub mod TwoEnded
pub mod Remap
pub mod LoadQueue
pub mod Names
pub mod Loading
unfoldable pub use Registry.*
