-- ===== src/Contests.antt =====
-- Contests (apps/web/server/domains/contests).
pub mod Admission
