-- ===== src/Control.antt =====
-- control: the snapshot contract and the client-side reconciler.
pub mod Snapshot
pub mod Validate
pub mod Compare
pub mod Reconciler
pub mod Valid
pub mod Order
pub mod Bootstrap
pub mod Progress
pub mod Agreement
pub mod Succession
pub mod Advance
