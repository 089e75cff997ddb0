-- ===== src/Controller.antt =====
-- controller: durable, restartable membership transitions.
pub mod Phases
pub mod Spec
pub mod Publication
pub mod Start
pub mod Handover
pub mod Steps
pub mod Acceptance
pub mod State
pub mod Commands
pub mod Sources
pub mod Drain
pub mod Update
pub mod Operations
pub mod World
pub mod Reconcile
pub mod Protocol
pub mod Soundness
pub mod Moves
pub mod Updates
pub mod Refinement
pub mod Rounds
pub mod Finish
pub mod Safety
pub mod Guarantees
