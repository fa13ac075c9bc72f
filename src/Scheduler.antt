-- ===== src/Scheduler.antt =====
-- src/batch-scheduler: the scheduling decisions of the planner and the policies that make them.
pub mod Decision
pub mod Hosts
pub mod Histogram
pub mod Pack
pub mod Sorting
pub mod Minimise
pub mod Placement
pub mod Migration
pub mod BinPack
pub mod Compact
pub mod Spot
pub mod Service
pub mod Forced
pub mod Cache
mod Tests
