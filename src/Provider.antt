-- ===== src/Provider.antt =====
-- backend/internal/provider.
pub mod Ssrf
