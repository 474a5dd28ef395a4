-- ===== src/Auth.antt =====
-- backend/internal/auth.
pub mod LoginRateLimiter
