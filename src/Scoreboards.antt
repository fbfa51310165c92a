-- ===== src/Scoreboards.antt =====
-- The scoreboards (apps/web/server/domains/scoreboards).
pub mod Builder
pub mod Replayed
pub mod Views
