-- ===== src/Domain.antt =====
-- src/saas_platform/domain: the entities, and the interfaces that the adapters implement.
pub mod Action
pub mod Models
pub mod Interfaces
