-- ===== src/Examples.antt =====
-- Runs of the model on small inputs, and its theorems at them.
pub mod Samples
pub mod Worlds
mod Reports
mod Costs
mod Collections
mod Probes
mod Clients
mod Texts
mod Commands
mod Handover
