-- ===== src/Api/Context.antt =====
-- `AppContext` over any adapters, and the context over the in-memory adapters.
use hosted_agents_saa_s_plat.Prelude.{String, Bool, List, Option}
use hosted_agents_saa_s_plat.Domain.Action.{Action}
use hosted_agents_saa_s_plat.Domain.Models.{Datetime, UsageEvent}
use hosted_agents_saa_s_plat.Domain.Interfaces.{
  TenantCatalog, PlanCatalog, AgentAccessCatalog, ProvisioningQueue, UsageMeter, AgentGateway,
}
use hosted_agents_saa_s_plat.Config.{Settings}
use hosted_agents_saa_s_plat.Policies.RateLimit
use hosted_agents_saa_s_plat.Policies.RateLimit.{FixedWindowRateLimiter}
use hosted_agents_saa_s_plat.Policies.Auth.Claims.{Claims}
use hosted_agents_saa_s_plat.Policies.Auth.Jwks.{Jwt, JwksCache, Reading, decode_bearer_jwt}
use hosted_agents_saa_s_plat.Policies.Auth.Admin.{AdminPrincipal, authorize_admin}
use hosted_agents_saa_s_plat.Adapters.Storage.Memory
use hosted_agents_saa_s_plat.Adapters.Storage.Memory.{runs}
use hosted_agents_saa_s_plat.Adapters.Storage.Catalog.{Tenants, Plans}
use hosted_agents_saa_s_plat.Adapters.Storage.Agents.{AgentAccess}
use hosted_agents_saa_s_plat.Adapters.Storage.Queue.{JobQueue}
use hosted_agents_saa_s_plat.Adapters.Storage.Usage.{FloatOps}

-- `decode` is `_decode_bearer_jwt(ctx.settings, ·)`, which both authentication services call.
pub record AppContext (F S : Type 0) : Type 0 where
  pub settings : Settings
  pub catalog : TenantCatalog S
  pub plans : PlanCatalog S
  pub agent_access : AgentAccessCatalog S
  pub queue : ProvisioningQueue S
  pub usage : UsageMeter F S
  pub decode : Reading → String → Action S Claims
  pub allow : Datetime → String → Action S Bool
  pub gateway : AgentGateway S

-- `_authorize_admin`
abbrev pub require_admin :
    {F S : Type 0}
    → AppContext F S
    → Reading
    → String
    → List String
    → List String
    → Option String
    → Action S AdminPrincipal
require_admin ctx r authorization roles scopes tenant_id =
    authorize_admin (ctx.decode r) authorization roles scopes tenant_id

-- The state behind a context: the stores, the counters of the limiter, the cache of JWKS
-- documents, and the agents' provider, whose state `G` is not the program's.
pub record World (F G : Type 0) : Type 0 where
  pub tenants : Tenants
  pub plans : Plans
  pub agents : AgentAccess
  pub jobs : JobQueue
  pub events : List (UsageEvent F)
  pub limiter : FixedWindowRateLimiter
  pub jwks : JwksCache
  pub provider : G

module _ {F G : Type 0} where
  abbrev pub on_tenants : {A : Type 0} → Action Tenants A → Action (World F G) A
  on_tenants m w = let (r, s) = m w.tenants in (r, record w { tenants = s })

  abbrev pub on_plans : {A : Type 0} → Action Plans A → Action (World F G) A
  on_plans m w = let (r, s) = m w.plans in (r, record w { plans = s })

  abbrev pub on_agents : {A : Type 0} → Action AgentAccess A → Action (World F G) A
  on_agents m w = let (r, s) = m w.agents in (r, record w { agents = s })

  abbrev pub on_jobs : {A : Type 0} → Action JobQueue A → Action (World F G) A
  on_jobs m w = let (r, s) = m w.jobs in (r, record w { jobs = s })

  abbrev pub on_events : {A : Type 0} → Action (List (UsageEvent F)) A → Action (World F G) A
  on_events m w = let (r, s) = m w.events in (r, record w { events = s })

  abbrev pub on_limiter : {A : Type 0} → Action FixedWindowRateLimiter A → Action (World F G) A
  on_limiter m w = let (r, s) = m w.limiter in (r, record w { limiter = s })

  abbrev pub on_jwks : {A : Type 0} → Action JwksCache A → Action (World F G) A
  on_jwks m w = let (r, s) = m w.jwks in (r, record w { jwks = s })

  abbrev pub on_provider : {A : Type 0} → Action G A → Action (World F G) A
  on_provider m w = let (r, s) = m w.provider in (r, record w { provider = s })

-- `_build_context` with the in-memory adapters, the in-memory limiter and a given provider
abbrev pub memory_context :
    {F G Key : Type 0} ⦃o : FloatOps F⦄
    → Settings
    → Jwt Key
    → AgentGateway G
    → AppContext F (World F G)
memory_context settings jwt gateway = record {
  settings = settings;
  catalog = record {
    upsert_tenant = λ t. on_tenants (Memory.tenant_catalog.upsert_tenant t);
    get_tenant = λ i. on_tenants (Memory.tenant_catalog.get_tenant i);
  };
  plans = record {
    upsert_plan = λ p. on_plans (Memory.plan_catalog.upsert_plan p);
    get_plan = λ i. on_plans (Memory.plan_catalog.get_plan i);
    list_plans = on_plans Memory.plan_catalog.list_plans;
  };
  agent_access = record {
    upsert_tenant_agent = λ a. on_agents (Memory.agent_access_catalog.upsert_tenant_agent a);
    get_tenant_agent = λ t a. on_agents (Memory.agent_access_catalog.get_tenant_agent t a);
    list_tenant_agents = λ t. on_agents (Memory.agent_access_catalog.list_tenant_agents t);
    grant_customer_agent = λ g. on_agents (Memory.agent_access_catalog.grant_customer_agent g);
    revoke_customer_agent =
        λ t c a. on_agents (Memory.agent_access_catalog.revoke_customer_agent t c a);
    list_customer_agents = λ t c. on_agents (Memory.agent_access_catalog.list_customer_agents t c);
    is_customer_entitled =
        λ t c a. on_agents (Memory.agent_access_catalog.is_customer_entitled t c a);
  };
  queue = record {
    enqueue = λ job. on_jobs (Memory.provisioning_queue.enqueue job);
    claim_next = λ now. on_jobs (Memory.provisioning_queue.claim_next now);
    mark_done = λ i. on_jobs (Memory.provisioning_queue.mark_done i);
    mark_retry = λ now i e d. on_jobs (Memory.provisioning_queue.mark_retry now i e d);
    mark_dead_letter = λ i e. on_jobs (Memory.provisioning_queue.mark_dead_letter i e);
    get_job = λ i. on_jobs (Memory.provisioning_queue.get_job i);
  };
  usage = record {
    record_event = λ e. on_events (Memory.usage_meter.record_event e);
    summarize_tenant_month = λ t m. on_events (Memory.usage_meter.summarize_tenant_month t m);
    summarize_all_tenants_month = λ m. on_events (Memory.usage_meter.summarize_all_tenants_month m);
  };
  decode = λ r authorization. on_jwks (decode_bearer_jwt jwt settings r authorization);
  allow = λ now key. on_limiter (runs (RateLimit.allow now key));
  gateway = record { execute = λ t a m. on_provider (gateway.execute t a m) };
}
