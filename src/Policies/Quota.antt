-- ===== src/Policies/Quota.antt =====
-- src/saas_platform/policies/quota.py
use hosted_agents_saa_s_plat.Prelude.{
  Bool, true, false, ◌≡◌, ◌↔◌, ℤ, pos, ◌+ℤ◌, ◌≤ℤ◌, pos_part, ltb_ℤ, if◌then◌else◌, arith,
}

pub record QuotaPolicy : Type 0 where
  pub included_messages : ℤ
  pub hard_token_cap : ℤ

pub record QuotaCounter : Type 0 where
  pub messages_used : ℤ
  pub tokens_used : ℤ

unfoldable pub allow_request : QuotaPolicy → QuotaCounter → ℤ → Bool
allow_request policy counter estimated_tokens =
    if ltb_ℤ policy.included_messages (counter.messages_used +ℤ pos 1)
    then false
    else if ltb_ℤ policy.hard_token_cap (counter.tokens_used +ℤ pos (pos_part estimated_tokens))
    then false
    else true

-- A request is allowed exactly when one more message fits the plan and the estimate, a negative one
-- counted as 0, fits under the token cap.
pub allow_request_iff :
    (policy : QuotaPolicy) (counter : QuotaCounter) (estimated_tokens : ℤ)
    → (allow_request policy counter estimated_tokens ≡ true) ↔ (
        (counter.messages_used +ℤ pos 1 ≤ℤ policy.included_messages)
        × (counter.tokens_used +ℤ pos (pos_part estimated_tokens) ≤ℤ policy.hard_token_cap))
unfolding allow_request
allow_request_iff policy counter estimated_tokens = ground arith
