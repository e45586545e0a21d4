-- ===== src/Tests/Creation.antt =====
-- The creation of a tenant on an empty store with one plan.
use hosted_agents_saa_s_plat.Prelude.{string_eq, ℕ, [], ◌∷◌}
use hosted_agents_saa_s_plat.Domain.Models.{CreateTenantRequest, CreateTenantResponse}
use hosted_agents_saa_s_plat.Api.Context.{World}
use hosted_agents_saa_s_plat.Api.Tenants.{create_tenant}
use hosted_agents_saa_s_plat.Tests.Admin.{whole_floats, context, world}
use hosted_agents_saa_s_plat.Tests.Runs.{starter}

abbrev request : CreateTenantRequest
request = record { name = "Acme"; plan = "starter" }

abbrev new_world : World ℕ Unit
new_world = record world { plans = ("starter", starter) ∷ [] }

abbrev created_world : World ℕ Unit
created_world = (create_tenant context request "t9" "j9" 5 6 7 new_world).1

abbrev response : CreateTenantResponse
response = record { tenant_id = "t9"; status = "pending"; provisioning_job_id = "j9" }
