-- ===== src/Scoreboards/Views.antt =====
-- Views of the scoreboards (apps/web/server/domains/scoreboards/view-service.ts).
pub mod Snapshots
pub mod Service
pub mod Read
pub mod Built
pub mod Answers
pub mod Reads
pub mod Agrees
pub mod Frozen
