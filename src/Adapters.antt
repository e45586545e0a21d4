-- ===== src/Adapters.antt =====
-- src/saas_platform/adapters: persistence behind the interfaces of the domain.
pub mod Storage
pub mod Database
pub mod Postgres
pub mod Transport
pub mod Foundry
pub mod Secrets
