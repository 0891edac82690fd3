-- ===== src/Dedup.antt =====
-- Package dedup (dedup/deduplicator.go and dedup/secondary.go).
pub mod Shard
pub mod Primary
pub mod Secondary
