-- ===== src/Kafka.antt =====
-- internal/kafka: the connection, its reads and the probe of the credential's rights.
pub mod ReadOnly
pub mod Rights
pub mod Admin
pub mod Reads
pub mod Connect
pub mod Credentials
pub mod Redact
pub mod Keeps
pub mod Topics
pub mod LogDirs
pub mod Errors
