-- ===== src/Buffer.antt =====
-- Package buffer (buffer/ringbuffer.go).
pub mod Ring
