-- ===== src/Planner/Steps.antt =====
-- The planner as a system of steps.
pub mod Hosts
pub mod Results
pub mod Claims
pub mod Call
pub mod Decided
pub mod Reach
