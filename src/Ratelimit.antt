-- ===== src/Ratelimit.antt =====
-- Package ratelimit (internal/ratelimit/): a counter that throttles a log line.
pub mod Counter
