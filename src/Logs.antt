-- ===== src/Logs.antt =====
-- The dropped-line log of the main package (drop_log_dedupe.go).
pub mod DropDedupe
