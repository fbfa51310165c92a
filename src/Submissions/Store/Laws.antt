-- ===== src/Submissions/Store/Laws.antt =====
-- Laws of the operations of the submission store.
pub mod Orders
pub mod Versions
pub mod Publishing
pub mod Steps
pub mod Consistent
pub mod Admitted
pub mod Stored
pub mod Refusals
