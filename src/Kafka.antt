-- ===== src/Kafka.antt =====
-- internal/source/kafka/kafka.go: the consumer of the central tier.
pub mod Dedup
pub mod Identity
pub mod Session
pub mod Commits
pub mod Underway
pub mod Delivery
pub mod Push
