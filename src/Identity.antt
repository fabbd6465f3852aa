-- ===== src/Identity.antt =====
-- backend/app/identity: who may do what.
pub mod Capabilities
