-- ===== src/Submissions/Replay.antt =====
-- apps/web/server/domains/submissions/scoring-replay.ts: the scores of a contest, computed again
-- from its facts. The facts, the checks on them, the scores of challenges, those of participations
-- and the ranking stand in one module each; `Run` puts them together.
pub mod Facts
pub mod Check
pub mod Challenges
pub mod Totals
pub mod Ranking
pub mod Run
