-- ===== src/Reputation.antt =====
-- The reputation gate: reputation/prefix.go and reputation/cache.go.
pub mod PrefixLimiter
pub mod TtlCache
