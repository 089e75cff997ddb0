-- ===== src/Policy.antt =====
-- The packages of policy/: the checks of the inputs, the assessment of a telemetry cycle, and the
-- engine that recommends changes of membership, with what is proved of it.
pub mod Types
pub mod Checks
pub mod Assess
pub mod Aggregate
pub mod Advice
pub mod Engine
pub mod Recommend
pub mod Windows
pub mod Budget
pub mod Cycle
pub mod Decisions
pub mod Telemetry
