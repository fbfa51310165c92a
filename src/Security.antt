-- ===== src/Security.antt =====
-- The protections of the server (apps/web/server/infrastructure/security).
pub mod RateLimit
