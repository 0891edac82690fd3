-- ===== src/Metadata.antt =====
-- What the program knows of callsigns: call_meta_cache.go.
pub mod CallMeta
