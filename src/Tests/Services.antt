-- ===== src/Tests/Services.antt =====
-- The adapters of other services on clients in memory.
use hosted_agents_saa_s_plat.Prelude.{
  string_eq, string_eq_iff, nat_eq, ◌/◌, ◌*◌, ◌+◌, ◌-◌, ◌&&◌, ◌||◌, ℕ, suc, String, Bool, true,
  false, ◌≡◌, refl, Option, none, some, List, [], ◌∷◌, ◌==◌, ℤ, pos, leb_ℤ, contains, arith,
  if◌then◌else◌, Bool-cases, inl, inr,
}
use hosted_agents_saa_s_plat.Text.{strip, lower}
use hosted_agents_saa_s_plat.Collections.Dict.{Dict, get, put, get-put}
use hosted_agents_saa_s_plat.Collections.KeySet.{discard, contains-discard}
use hosted_agents_saa_s_plat.Config.{Settings}
use hosted_agents_saa_s_plat.Config.Environment.{Literal, invalid, get_settings}
use hosted_agents_saa_s_plat.Config.Environment.Bounds.{IsWithin, get_settings-IsWithin}
use hosted_agents_saa_s_plat.Domain.Action.{Action, Outcome, ok, err, error}
use hosted_agents_saa_s_plat.Domain.Models.{ProvisioningJob, new_job}
use hosted_agents_saa_s_plat.Adapters.Storage.Queue
use hosted_agents_saa_s_plat.Adapters.Storage.Queue.{JobQueue}
use hosted_agents_saa_s_plat.Adapters.Storage.Memory
use hosted_agents_saa_s_plat.Adapters.Transport.{
  Payload, signal, retry_signal, dead_letter_of, Transported,
}
use hosted_agents_saa_s_plat.Adapters.Transport.StorageQueue
use hosted_agents_saa_s_plat.Adapters.Transport.StorageQueue.{QueueClient, Signals}
use hosted_agents_saa_s_plat.Adapters.Transport.Delegate.{
  done_call, perform, Follows, perform-Follows,
}
use hosted_agents_saa_s_plat.Adapters.Foundry.{
  AgentsClient, GatewayState, FoundryAuthPolicy, managed_identity, resolve_foundry_auth_policy,
  execute,
}
use hosted_agents_saa_s_plat.Adapters.Foundry.Policy.{
  Justified, resolve_foundry_auth_policy-Justified,
}
use hosted_agents_saa_s_plat.Adapters.Foundry.Laws.{ThreadLaws, created_thread}
use hosted_agents_saa_s_plat.Adapters.Foundry.Threads.{Settled, execute_closes}
use hosted_agents_saa_s_plat.Domain.Action.Success.{ok_inj}
use mathlib.Core.Path.{subst}
use hosted_agents_saa_s_plat.Policies.RateLimit.Redis.{
  RedisClient, RedisFixedWindowRateLimiter, new_redis_limiter, redis_key, allow_redis, CounterLaws,
  allow_redis_counts,
}
use hosted_agents_saa_s_plat.Policies.Auth.Tenant.{is_production}
use hosted_agents_saa_s_plat.Api.Backends.{
  QueueBackend, service_bus, by_managed_identity, resolve_queue_backend,
}
use hosted_agents_saa_s_plat.Tests.Admin.{settings}

-- a service that keeps the texts sent to it and refuses to delete
abbrev client : QueueClient (List String)
client = record {
  send_message = λ text timeout c. (ok tt, text ∷ c);
  receive_messages = λ timeout c. (ok (("m", "receipt") ∷ []), c);
  delete_message = λ i receipt c. (err (error "ResourceNotFoundError" "gone"), c);
}

abbrev dumps : Payload → String
dumps (signal i) = i
dumps (retry_signal i) = i
dumps (dead_letter_of i e) = e

abbrev job : ProvisioningJob
job = new_job "j1" "t1" "provision" "k1" (pos 3) 5 5

abbrev claimed : Transported JobQueue (Signals (List String))
claimed = record {
  delegate = Queue.enqueue job Queue.empty;
  service = record { inflight = ("j1", ("m", "receipt")) ∷ []; service = [] };
}

perform-Follows_example :
    Follows
      (perform Memory.provisioning_queue (done_call "j1") claimed.delegate)
      (perform
        (StorageQueue.provisioning_queue dumps client client (pos 30) Memory.provisioning_queue)
        (done_call "j1")
        claimed)
      claimed
perform-Follows_example =
    perform-Follows Memory.provisioning_queue dumps client client (pos 30) (done_call "j1") claimed

abbrev policy : FoundryAuthPolicy
policy = record { mode = managed_identity; managed_identity_client_id = none }

policy_found : resolve_foundry_auth_policy settings ≡ ok policy
unfolding resolve_foundry_auth_policy is_production lower strip
policy_found = refl

resolve_foundry_auth_policy-Justified_example : Justified settings policy
resolve_foundry_auth_policy-Justified_example =
    resolve_foundry_auth_policy-Justified settings policy policy_found

-- a service that keeps the open threads, creates one and fails in its run
abbrev create : List String → Outcome (Option String) × List String
create c =
    if contains "t1" c
    then (err (error "HttpResponseError" "conflict"), c)
    else (ok (some "t1"), "t1" ∷ c)

abbrev agents : AgentsClient (List String)
agents = record {
  create_thread = λ tenant_id agent_id. create;
  create_message = λ i content tenant_id agent_id c. (ok tt, c);
  create_and_process =
      λ i agent_id interval tenant_id c. (err (error "HttpResponseError" "busy"), c);
  last_message_text = λ i c. (ok none, c);
  delete_thread = λ i c. (ok tt, discard c i);
}

abbrev connect : Action (List String) Bool
connect c = (ok true, c)

abbrev listed : List String → String → Bool
listed c t = contains t c

agents-ThreadLaws : ThreadLaws agents connect listed
agents-ThreadLaws = record {
  opened = λ tenant_id agent_id c t r h. elim (Bool-cases (contains "t1" c)) [
    | inl there ↦
        let h' : err (error "HttpResponseError" "conflict") ≡ ok r = rw there at h in absurd (cc)
    | inr free ↦
        let h' : ok (some "t1") ≡ ok r = rw free at h in
        subst (λ x. listed (create c).1 t ≡ (listed c t || created_thread x t)) (ok_inj h')
          (rw free (ground (arith, string_eq_iff t "t1", string_eq_iff "t1" t)))
  ];
  is_new = λ tenant_id agent_id c i h named. elim (Bool-cases (contains "t1" c)) [
    | inl there ↦
        let h' : err (error "HttpResponseError" "conflict") ≡ ok (some i) = rw there at h in
        absurd (cc)
    | inr free ↦
        let h' : ok (some "t1") ≡ ok (some i) = rw free at h in
        let same : "t1" ≡ i = ground (arith, ok_inj h') in subst (λ x. listed c x ≡ false) same free
  ];
  failed_create = λ tenant_id agent_id c t e h before. elim (Bool-cases (contains "t1" c)) [
    | inl there ↦ rw there before
    | inr free ↦ rw free (ground arith)
  ];
  message_keeps = λ i content tenant_id agent_id c t. refl;
  run_keeps = λ i agent_id interval tenant_id c t. refl;
  text_keeps = λ i c t. refl;
  connect_keeps = λ c t. refl;
  closed = λ i c h. ground (arith, contains-discard c i i, string_eq_iff i i);
  others_kept = λ i c t other. ground (arith, contains-discard c i t);
}

abbrev with_endpoint : Settings
with_endpoint = record settings { azure_ai_project_endpoint = "https://x" }

abbrev unconnected : GatewayState (List String)
unconnected = record { project_client = none; service = "t0" ∷ [] }

execute_closes_example :
    Settled agents connect listed agents-ThreadLaws "t1" "t" "a" unconnected.service
      (execute agents connect with_endpoint policy "t" "a" "hi" unconnected).1.service
execute_closes_example =
    execute_closes agents connect listed agents-ThreadLaws "t1" with_endpoint policy "t" "a" "hi"
      unconnected

-- the counters and the expiries of a Redis server
abbrev Keys : Type 0
Keys = Dict String ℕ × Dict String ℕ

abbrev or_zero : Option ℕ → ℕ
or_zero none = 0
or_zero (some n) = n

abbrev counter : Keys → String → ℕ
counter c k = or_zero (get c.0 k)

abbrev expiry : Keys → String → Option ℕ
expiry c k = get c.1 k

abbrev redis : RedisClient Keys
redis = record {
  incr = λ k c. (ok (pos (suc (counter c k))), (put c.0 k (suc (counter c k)), c.1));
  expire = λ k ttl c. (ok tt, (c.0, put c.1 k ttl));
}

redis-CounterLaws : CounterLaws redis counter expiry
redis-CounterLaws = record {
  incremented = λ k c. refl;
  count-incr = λ k c j. ground (arith, get-put c.0 k j (suc (counter c k)));
  expiry-incr = λ k c j. refl;
  expired = λ k ttl c. refl;
  count-expire = λ k ttl c j. refl;
  expiry-expire = λ k ttl c j. get-put c.1 k j ttl;
}

abbrev limiter : RedisFixedWindowRateLimiter
limiter = new_redis_limiter (pos 2) "" true

-- the first call of a key, 7 seconds into a minute, and the counter of that minute
allow_redis_counts_example :
    let k = redis_key limiter 7000000 "t1:a" in
    let k' = redis_key limiter 8000000 "t1:a" in
    let one =
      (◌==◌ {K = ℕ} (7000000 / 60000000) (8000000 / 60000000))
      && (◌==◌ {K = String} "t1:a" "t1:a") in
    let (r, c') = allow_redis redis limiter 7000000 "t1:a" ([], []) in
    (r ≡ ok (leb_ℤ (pos (suc (counter ([], []) k))) limiter.requests_per_minute))
    × (counter c' k' ≡ (if one then suc (counter ([], []) k) else counter ([], []) k'))
    × (expiry c' k' ≡ (
        if one && (counter ([], []) k == 0)
        then some (60 * (7000000 / 60000000 + 1) - 7000000 / 1000000)
        else expiry ([], []) k'))
allow_redis_counts_example =
    allow_redis_counts redis counter expiry redis-CounterLaws limiter 7000000 8000000 "t1:a" "t1:a"
      ([], [])

abbrev no_literal : String → Literal
no_literal s = invalid

abbrev zero_text : String → Option ℤ
zero_text s = some (pos 0)

abbrev read_or : Outcome Settings → Settings
read_or (ok s) = s
read_or (err e) = settings

abbrev from_nothing : Settings
unfolding get_settings
from_nothing = read_or (get_settings zero_text no_literal no_literal []).0

settings_read : (get_settings zero_text no_literal no_literal []).0 ≡ ok from_nothing
unfolding get_settings from_nothing get strip lower
settings_read = refl

get_settings-IsWithin_example : IsWithin from_nothing
get_settings-IsWithin_example =
    get_settings-IsWithin zero_text no_literal no_literal [] from_nothing settings_read

abbrev with_bus : Settings
with_bus = record settings {
  provisioning_queue_backend = " Service_Bus";
  azure_service_bus_fully_qualified_namespace = "ns";
}

abbrev bus : QueueBackend
bus = service_bus (by_managed_identity "ns" none) "jobs" "dead"

bus_found : resolve_queue_backend with_bus ≡ ok bus
unfolding resolve_queue_backend strip lower
bus_found = refl
