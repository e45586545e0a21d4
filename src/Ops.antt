-- ===== src/Ops.antt =====
-- src/saas_platform/ops: the tools of an operator.
pub mod EntitlementRollout
