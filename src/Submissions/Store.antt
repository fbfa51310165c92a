-- ===== src/Submissions/Store.antt =====
-- The store of submissions, solves, adjustments and cheat clues
-- (apps/web/server/infrastructure/db/submission-repository.ts).
pub mod Tables
pub mod Admission
pub mod Clues
pub mod Append
pub mod Adjustments
pub mod Reviews
pub mod Load
pub mod Laws
pub mod Appends
pub mod Races
pub mod Adjusted
pub mod Loaded
pub mod Reviewed
pub mod ReviewRuns
pub mod ReviewRepeats
pub mod Succeeds
pub mod Announced
