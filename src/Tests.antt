-- ===== src/Tests.antt =====
-- Runs of the model on concrete input.
pub mod Provisioning
pub mod Stores
pub mod Policies
pub mod Admin
pub mod Runs
pub mod AgentLimit
pub mod Creation
pub mod Tables
pub mod Postgres
pub mod Rollout
pub mod Services
