-- ===== src/Api/Backends.antt =====
-- `_resolve_queue_backend` and `_resolve_rate_limiter` of src/saas_platform/api/main.py: which adapter
-- the settings ask for, with what its constructor is given.
use hosted_agents_saa_s_plat.Prelude.{
  string_eq, String, Bool, true, false, not, ◌≡◌, Option, none, some, [], ◌∷◌, ◌==◌, contains, ℤ,
  if◌then◌else◌, Bool-cases, inl, inr,
}
use mathlib.Core.Path.{subst}
use hosted_agents_saa_s_plat.Text.{strip, lower}
use hosted_agents_saa_s_plat.Config.{Settings}
use hosted_agents_saa_s_plat.Domain.Action.Success.{ok_inj}
use hosted_agents_saa_s_plat.Domain.Action.{Outcome, ok, err, error}

-- how a client of a message service authenticates: with the connection string, which holds a key, or at
-- an address with the managed identity
pub data Access : Type 0 where
  by_connection_string : String → Access
  by_managed_identity : String → Option String → Access

-- with the names of the queue and of the one for dead letters
pub data QueueBackend : Type 0 where
  base_queue : QueueBackend
  storage_queue : Access → String → String → QueueBackend
  service_bus : Access → String → String → QueueBackend

-- `settings.azure_managed_identity_client_id.strip() or None`
abbrev client_id_of : Settings → Option String
client_id_of settings =
    let client_id = strip settings.azure_managed_identity_client_id in
    if client_id == "" then none else some client_id

-- one of the two services, whose address, connection string and error these are
unfoldable pub resolve_service :
    Settings → (Access → QueueBackend) → String → String → String → Outcome QueueBackend
resolve_service settings make address connection_string message =
    if settings.azure_use_managed_identity
    then (if address == ""
        then ok base_queue
        else ok (make (by_managed_identity address (client_id_of settings))))
    else if not settings.allow_api_key_fallback
    then err (error "RuntimeError" message)
    else if connection_string == ""
    then ok base_queue
    else ok (make (by_connection_string connection_string))

abbrev pub storage_of : Settings → Access → QueueBackend
storage_of settings access =
    storage_queue access settings.azure_storage_queue_name
      settings.azure_storage_queue_dead_letter_queue_name

abbrev pub bus_of : Settings → Access → QueueBackend
bus_of settings access =
    service_bus access settings.azure_service_bus_queue_name
      settings.azure_service_bus_dead_letter_queue_name

unfoldable pub resolve_queue_backend : Settings → Outcome QueueBackend
unfolding resolve_service
resolve_queue_backend settings =
    let backend = lower (strip settings.provisioning_queue_backend) in
    if contains backend ("" ∷ "database" ∷ [])
    then ok base_queue
    else if backend == "storage_queue"
    then resolve_service settings (storage_of settings) settings.azure_storage_queue_account_url
        settings.azure_storage_queue_connection_string
        "Storage queue backend requires managed identity or explicit API-key fallback allowance."
    else if backend == "service_bus"
    then resolve_service settings (bus_of settings)
        settings.azure_service_bus_fully_qualified_namespace
        settings.azure_service_bus_connection_string
        "Service Bus backend requires managed identity or explicit API-key fallback allowance."
    else err (error "RuntimeError" "Unsupported PROVISIONING_QUEUE_BACKEND")

-- the limiter, with the arguments of its constructor
pub data LimiterBackend : Type 0 where
  in_memory : ℤ → LimiterBackend
  in_redis : ℤ → String → String → Bool → LimiterBackend

unfoldable pub resolve_rate_limiter : Settings → Outcome LimiterBackend
resolve_rate_limiter settings =
    let backend = lower (strip settings.rate_limit_backend) in
    if contains backend ("" ∷ "memory" ∷ [])
    then ok (in_memory settings.default_rate_limit_rpm)
    else if backend == "redis"
    then (if settings.rate_limit_redis_url == ""
        then ok (in_memory settings.default_rate_limit_rpm)
        else ok (
            in_redis settings.default_rate_limit_rpm settings.rate_limit_redis_url
              settings.rate_limit_redis_key_prefix settings.rate_limit_redis_fail_open))
    else err (error "RuntimeError" "Unsupported RATE_LIMIT_BACKEND")

-- what the credentials of a backend rest on
abbrev AllowedAccess : Settings → Access → Type 0
AllowedAccess settings (by_connection_string s) =
    (settings.azure_use_managed_identity ≡ false) × (settings.allow_api_key_fallback ≡ true)
AllowedAccess settings (by_managed_identity address client_id) =
    settings.azure_use_managed_identity ≡ true

abbrev pub IsAllowed : Settings → QueueBackend → Type 0
IsAllowed settings base_queue = Unit
IsAllowed settings (storage_queue access queue_name dead_letter_name) =
    AllowedAccess settings access
IsAllowed settings (service_bus access queue_name dead_letter_name) = AllowedAccess settings access

resolve_service-IsAllowed :
    (settings : Settings) (make : Access → QueueBackend)
    (address connection_string message : String) (b : QueueBackend)
    → ((a : Access) → AllowedAccess settings a → IsAllowed settings (make a))
    → resolve_service settings make address connection_string message ≡ ok b
    → IsAllowed settings b
unfolding resolve_service
resolve_service-IsAllowed settings make address connection_string message b allowed h =
    elim (Bool-cases settings.azure_use_managed_identity) [
      | inl managed ↦ elim (Bool-cases (address == "")) [
        | inl unset ↦ subst (IsAllowed settings) (ok_inj (rw (managed, unset) at h)) tt
        | inr set ↦ subst (IsAllowed settings) (ok_inj (rw (managed, set) at h)) (allowed _ managed)
      ]
      | inr unmanaged ↦ elim (Bool-cases settings.allow_api_key_fallback) [
        | inr refused ↦ absurd (let e = rw (unmanaged, refused) at h in cc)
        | inl fallback ↦ elim (Bool-cases (connection_string == "")) [
          | inl unset ↦
              subst (IsAllowed settings) (ok_inj (rw (unmanaged, fallback, unset) at h)) tt
          | inr set ↦
              subst (IsAllowed settings) (ok_inj (rw (unmanaged, fallback, set) at h))
                (allowed _ (unmanaged, fallback))
        ]
      ]
    ]

-- A queue backend that the settings choose uses a connection string only where the managed identity is
-- off and the fallback to keys is allowed, and the managed identity only where it is on.
pub resolve_queue_backend-IsAllowed :
    (settings : Settings) (backend : QueueBackend)
    → resolve_queue_backend settings ≡ ok backend
    → IsAllowed settings backend
unfolding resolve_queue_backend
resolve_queue_backend-IsAllowed settings b h =
    let name = lower (strip settings.provisioning_queue_backend) in
    elim (Bool-cases (contains name ("" ∷ "database" ∷ []))) [
      | inl base ↦ subst (IsAllowed settings) (ok_inj (rw base at h)) tt
      | inr other ↦ elim (Bool-cases (name == "storage_queue")) [
        | inl storage ↦
            resolve_service-IsAllowed settings (storage_of settings) _ _ _ b (λ a p. p)
              (rw (other, storage) at h)
        | inr not_storage ↦ elim (Bool-cases (name == "service_bus")) [
          | inl bus ↦
              resolve_service-IsAllowed settings (bus_of settings) _ _ _ b (λ a p. p)
                (rw (other, not_storage, bus) at h)
          | inr unknown ↦ absurd (let e = rw (other, not_storage, unknown) at h in cc)
        ]
      ]
    ]
