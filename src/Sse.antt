-- ===== src/Sse.antt =====
-- Server sent events (backend/internal/sse).
pub mod Broker
