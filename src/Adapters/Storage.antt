-- ===== src/Adapters/Storage.antt =====
-- src/saas_platform/adapters/storage.py: the in-memory adapters.
pub mod Catalog
pub mod Agents
pub mod Queue
pub mod Usage
pub mod Memory
