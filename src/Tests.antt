-- ===== src/Tests.antt =====
-- Runs on concrete inputs, and the theorems at inputs that meet their hypotheses.
mod Transitions
mod Rounds
mod Bootstraps
mod Policy
mod Routing
mod Customer
mod Outbox
