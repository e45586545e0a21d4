-- ===== src/Policies.antt =====
-- src/saas_platform/policies: quota, rate limit and authentication.
pub mod Quota
pub mod RateLimit
pub mod Auth
