-- ===== src/Rules.antt =====
-- internal/rules: the rules engine.
pub mod Types
pub mod Pattern
pub mod Config
pub mod Helpers
pub mod DeadTopic
pub mod ZombieGroup
pub mod Retention
pub mod Partitions
pub mod Compression
pub mod Replication
pub mod Skew
pub mod Internal
pub mod Engine
pub mod Guards
pub mod Delivery
pub mod Savings
pub mod Billing
pub mod Proposals
pub mod Origin
