-- ===== src/Command.antt =====
-- cmd/brod: the command line.
pub mod Words
pub mod Hosts
pub mod World
pub mod Usage
pub mod Live
pub mod Report
pub mod Teams
pub mod TeamRules
pub mod Tables
pub mod Services
pub mod Shows
pub mod Main
pub mod Keeps
pub mod Lifting
pub mod Closed
pub mod Refusal
pub mod Sources
pub mod Rows
pub mod Exit
pub mod Transfer
pub mod Basis
pub mod Totals
