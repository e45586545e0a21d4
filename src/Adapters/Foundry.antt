-- ===== src/Adapters/Foundry.antt =====
-- src/saas_platform/adapters/foundry.py. The clients of azure-ai-projects are parameters: the factory
-- that connects, and the calls of its agents client. The metadata of a call is the tenant and the agent.
pub mod Policy
pub mod Laws
pub mod Threads
use Prim.Native.String.{◌++◌ as text_append}
use hosted_agents_saa_s_plat.Prelude.{
  string_eq, ℤ, pos, max_ℤ, String, Bool, true, false, ◌&&◌, not, Option, none, some, ◌==◌,
  if◌then◌else◌,
}
use hosted_agents_saa_s_plat.Text.{strip, lower, prefix}
use hosted_agents_saa_s_plat.Config.{Settings}
use hosted_agents_saa_s_plat.Domain.Action.{
  Action, Outcome, Raised, ok, err, error, pure, raise, lift, raise_if, or_raise, ◌>>=◌, ◌>>◌,
}
use hosted_agents_saa_s_plat.Policies.Auth.Claims.{non_empty}
use hosted_agents_saa_s_plat.Policies.Auth.Tenant.{is_production}

-- the two values of `FoundryAuthPolicy.mode`
pub data AuthMode : Type 0 where
  managed_identity api_key : AuthMode

abbrev pub mode_text : AuthMode → String
mode_text managed_identity = "managed_identity"
mode_text api_key = "api_key"

pub record FoundryAuthPolicy : Type 0 where
  pub mode : AuthMode
  pub managed_identity_client_id : Option String

-- `s or None`
abbrev or_none : String → Option String
or_none s = if s == "" then none else some s

unfoldable pub resolve_foundry_auth_policy : Settings → Outcome FoundryAuthPolicy
unfolding is_production
resolve_foundry_auth_policy settings =
    if is_production settings && not settings.azure_use_managed_identity
    then err (error "RuntimeError" "Production policy requires managed identity for Foundry access")
    else if settings.azure_use_managed_identity
    then ok (record {
      mode = managed_identity;
      managed_identity_client_id = or_none (strip settings.azure_managed_identity_client_id);
    })
    else if settings.allow_api_key_fallback && non_empty settings.azure_ai_project_api_key
    then ok (record { mode = api_key; managed_identity_client_id = none })
    else err (
        error "RuntimeError"
          "No Foundry auth mode available. Enable managed identity or explicitly allow API key fallback.")

-- The calls of the service: a call may raise, and what a response lacks is `none`. A run comes back
-- with its status and the text of its last error.
pub record AgentsClient (C : Type 0) : Type 0 where
  pub create_thread : String → String → Action C (Option String)
  pub create_message : String → String → String → String → Action C (Unit {0})
  pub create_and_process : String → String → ℤ → String → Action C (Option String × String)
  pub last_message_text : String → Action C (Option (Option String))
  pub delete_thread : String → Action C (Unit {0})

-- `make` is `AIProjectClient` with the credential of the managed identity
unfoldable pub default_project_client_factory :
    {C : Type 0} → (String → Option String → Action C Bool) → Settings → Action C Bool
default_project_client_factory make settings =
    let endpoint = strip settings.azure_ai_project_endpoint in
    if endpoint == ""
    then raise (error "RuntimeError" "AZURE_AI_PROJECT_ENDPOINT is required for Foundry execution")
    else if not settings.azure_use_managed_identity
    then raise (error "RuntimeError" "Foundry project client requires managed identity mode")
    else make endpoint (or_none (strip settings.azure_managed_identity_client_id))

-- `_project_client`, once it is made, and whether it exposes an agents client; the service
pub record GatewayState (C : Type 0) : Type 0 where
  pub project_client : Option Bool
  pub service : C

-- `try: m finally: cleanup`, where an exception of the cleanup is only logged
abbrev pub finally : {C A : Type 0} → Action C A → Action C (Unit {0}) → Action C A
finally m cleanup c = let (r, c1) = m c in (r, (cleanup c1).1)

-- `getattr(x, name, "") or ""`
abbrev pub or_empty : Option String → String
or_empty none = ""
or_empty (some text) = text

module _ {C : Type 0} (agents : AgentsClient C) (poll_interval : ℤ)
    (tenant_id agent_id message : String) where
  abbrev pub answer_text : Option (Option String) → Outcome String
  answer_text none =
      err (error "RuntimeError" "Foundry run completed but returned no agent message")
  answer_text (some value) =
      let text = strip (or_empty value) in
      if text == ""
      then err (error "RuntimeError" "Foundry run completed but returned empty agent text")
      else ok text

  abbrev pub failed_run : String → String → Raised
  failed_run status run_error = error "RuntimeError" (
      text_append "Foundry run failed with status="
        (text_append status (text_append ", error=" run_error)))

  abbrev pub check_run : Option String × String → Action C (Unit {0})
  check_run (status, run_error) =
      raise_if (not (lower (or_empty status) == "completed"))
        (failed_run (lower (or_empty status)) run_error)

  abbrev pub read_answer : String → Action C String
  read_answer thread_id = agents.last_message_text thread_id >>= λ m. lift (answer_text m)

  abbrev pub after_run : String → Option String × String → Action C String
  after_run thread_id run = check_run run >> read_answer thread_id

  -- the `try` from the message on
  abbrev pub run_in_thread : String → Action C String
  run_in_thread thread_id =
      agents.create_message thread_id message tenant_id agent_id
      >> (agents.create_and_process thread_id agent_id (max_ℤ poll_interval (pos 1)) tenant_id
          >>= after_run thread_id)

  abbrev pub in_thread : String → Action C String
  in_thread thread_id =
      if thread_id == ""
      then raise (error "RuntimeError" "Foundry did not return a thread id")
      else finally (run_in_thread thread_id) (agents.delete_thread thread_id)

  unfoldable pub converse : Action C String
  converse = agents.create_thread tenant_id agent_id >>= λ created. in_thread (or_empty created)

module _ {C : Type 0} (agents : AgentsClient C) (connect : Action C Bool) (settings : Settings)
    (policy : FoundryAuthPolicy) where
  abbrev pub in_service : {A : Type 0} → Action C A → Action (GatewayState C) A
  in_service m s = let (r, c) = m s.service in (r, record s { service = c })

  abbrev pub exposed : Bool → Action (GatewayState C) (Unit {0})
  exposed exposes s = if exposes then (ok tt, record s { project_client = some true }) else (
    err (error "RuntimeError" "Foundry project client did not expose an agents client"),
    record s { project_client = some false },
  )

  abbrev pub connect_if : Option Bool → Action (GatewayState C) (Unit {0})
  connect_if none = in_service connect >>= exposed
  connect_if (some exposes) = exposed exposes

  unfoldable pub agents_client : Action (GatewayState C) (Unit {0})
  agents_client s = connect_if s.project_client s

  abbrev pub placeholder : String → String → String → String
  placeholder tenant_id agent_id message = text_append "[tenant=" (
      text_append tenant_id (
        text_append "] [agent=" (
          text_append agent_id (
            text_append "] [auth=" (
              text_append (mode_text policy.mode) (
                text_append "] foundry endpoint not configured; local placeholder output for: "
                  (prefix 120 message)))))))

  abbrev pub is_managed : AuthMode → Bool
  is_managed managed_identity = true
  is_managed api_key = false

  unfoldable pub execute : String → String → String → Action (GatewayState C) String
  unfolding agents_client converse
  execute tenant_id agent_id message =
      if strip settings.azure_ai_project_endpoint == ""
      then pure (placeholder tenant_id agent_id message)
      else (do
        raise_if (not (is_managed policy.mode)) (
            error "RuntimeError"
              "Hosted-agent execution requires managed identity authentication. Set AZURE_USE_MANAGED_IDENTITY=true for Foundry execution.")
        agents_client
        in_service
            (converse agents settings.foundry_run_poll_interval_seconds tenant_id agent_id message))
