-- ===== src/Adapters/Postgres.antt =====
-- src/saas_platform/adapters/postgres.py: the adapters over tables of a database. The order of texts
-- in an `order_by` is the collation of the database, a parameter `text_le`.
pub mod Catalog
pub mod Agents
pub mod Jobs
pub mod Usage
