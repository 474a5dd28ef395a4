-- ===== src/Settings.antt =====
-- backend/internal/settings.
pub mod Quota
pub mod TaskConcurrency
