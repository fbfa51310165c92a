-- ===== src/Challenges.antt =====
-- Challenges (apps/web/server/domains/challenges and apps/web/shared/contracts/challenges.ts).
pub mod Policy
pub mod Flags
pub mod Derived
