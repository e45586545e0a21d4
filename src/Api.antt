-- ===== src/Api.antt =====
-- src/saas_platform/api/main.py: the context of the application and the handlers of its endpoints.
-- A handler takes what it reads from outside (clock, fresh uuids) as arguments.
pub mod Backends
pub mod Context
pub mod Month
pub mod Plans
pub mod Tenants
pub mod Agents
pub mod Runs
pub mod Identity
pub mod Admin
