-- ===== src/Submissions.antt =====
-- apps/web/server/domains/submissions: scoring and the replay of scoring facts.
pub mod Scoring
pub mod Replay
pub mod Store
pub mod Service
