-- ===== src/Participations.antt =====
-- Participations of teams in contests (apps/web/server/domains/participations and
-- apps/web/server/infrastructure/db/participation-repository.ts).
pub mod Tables
pub mod Eligibility
pub mod Store
pub mod Review
pub mod Lifecycle
pub mod Service
