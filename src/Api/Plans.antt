-- ===== src/Api/Plans.antt =====
-- The handlers of the plans, and the plans that the application starts with.
use hosted_agents_saa_s_plat.Prelude.{String, true, Option, none, some, List, [], ◌∷◌, pos}
use hosted_agents_saa_s_plat.Domain.Action.{Action, http, pure, or_raise, ◌>>=◌, ◌>>◌}
use hosted_agents_saa_s_plat.Domain.Models.{Datetime, Plan, CreatePlanRequest}
use hosted_agents_saa_s_plat.Policies.Auth.Jwks.{Reading}
use hosted_agents_saa_s_plat.Api.Context.{AppContext, require_admin}

abbrev pub default_plans : Datetime → List Plan
default_plans now =
    record {
      plan_id = "starter";
      display_name = "Starter";
      limits = record {
        monthly_messages = pos 5000;
        monthly_token_cap = pos 2000000;
        max_agents = pos 3;
      };
      active = true;
      created_at = now;
    }
    ∷ record {
      plan_id = "growth";
      display_name = "Growth";
      limits = record {
        monthly_messages = pos 25000;
        monthly_token_cap = pos 10000000;
        max_agents = pos 15;
      };
      active = true;
      created_at = now;
    }
    ∷ record {
      plan_id = "enterprise";
      display_name = "Enterprise";
      limits = record {
        monthly_messages = pos 200000;
        monthly_token_cap = pos 120000000;
        max_agents = pos 100;
      };
      active = true;
      created_at = now;
    }
    ∷ []

abbrev pub plan_of : CreatePlanRequest → Datetime → Plan
plan_of request now = record {
  plan_id = request.plan_id;
  display_name = request.display_name;
  limits = record {
    monthly_messages = request.monthly_messages;
    monthly_token_cap = request.monthly_token_cap;
    max_agents = request.max_agents;
  };
  active = request.active;
  created_at = now;
}

module _ {F S : Type 0} (ctx : AppContext F S) where
  abbrev seed_missing : Plan → Option Plan → Action S (Unit {0})
  seed_missing plan none = ctx.plans.upsert_plan plan
  seed_missing plan (some existing) = pure tt

  -- `_seed_default_plans`, over the list that it goes through
  unfoldable pub seed_plans : List Plan → Action S (Unit {0})
  seed_plans [] = pure tt
  seed_plans (plan ∷ rest) = do
    existing ← ctx.plans.get_plan plan.plan_id
    seed_missing plan existing
    seed_plans rest

  unfoldable pub list_plans : Reading → String → Action S (List Plan)
  list_plans r authorization = do
    principal ← require_admin ctx r authorization ("platform_admin" ∷ []) ("plans.read" ∷ []) none
    ctx.plans.list_plans

  unfoldable pub get_plan : Reading → String → String → Action S Plan
  get_plan r plan_id authorization = do
    principal ← require_admin ctx r authorization ("platform_admin" ∷ []) ("plans.read" ∷ []) none
    plan ← ctx.plans.get_plan plan_id
    or_raise plan (http 404 "plan not found")

  unfoldable pub upsert_plan : Reading → Datetime → CreatePlanRequest → String → Action S Plan
  upsert_plan r now request authorization = do
    principal ← require_admin ctx r authorization ("platform_admin" ∷ []) ("plans.write" ∷ []) none
    let plan = plan_of request now
    ctx.plans.upsert_plan plan
    pure plan
