-- ===== src/Collect.antt =====
-- internal/collect/collect.go: a snapshot from the replies of a cluster.
pub mod Types
pub mod Mapping
pub mod Build
pub mod Shape
pub mod Silent
pub mod Reads
pub mod Keeps
pub mod Numerals
pub mod Spans
pub mod Consumers
