-- ===== src/Provisioning.antt =====
-- src/saas_platform/provisioning: the worker that brings tenants up.
pub mod Worker
pub mod Runner
