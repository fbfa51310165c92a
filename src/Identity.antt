-- ===== src/Identity.antt =====
-- apps/web/server/domains/identity: who may do what.
pub mod Capabilities
