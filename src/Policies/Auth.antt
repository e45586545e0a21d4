-- ===== src/Policies/Auth.antt =====
-- src/saas_platform/policies/auth.py: tokens, tenant callers and admin callers.
pub mod Claims
pub mod Jwks
pub mod Tenant
pub mod Admin
