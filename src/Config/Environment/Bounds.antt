-- ===== src/Config/Environment/Bounds.antt =====
-- What `get_settings` guarantees of the numbers and the API keys.
use hosted_agents_saa_s_plat.Prelude.{
  string_eq, ◌==◌, String, true, ◌≡◌, refl, Option, none, some, ℤ, pos, max_ℤ, ◌≤ℤ◌, All,
  filter_sound, arith, Bool-cases, inl, inr,
}
use mathlib.Core.Path.{subst}
use hosted_agents_saa_s_plat.Collections.Dict.{Dict}
use hosted_agents_saa_s_plat.Text.{strip}
use hosted_agents_saa_s_plat.Domain.Action.Success.{ok_inj}
use hosted_agents_saa_s_plat.Domain.Action.{Action, Outcome, ok, err, continue, pure}
use hosted_agents_saa_s_plat.Config.{Settings}
use hosted_agents_saa_s_plat.Config.Environment.{
  Literal, invalid, other_value, dict_value, usable_keys, keys_of_json, parse_tenant_api_keys,
  int_from, env, get_settings,
}
use hosted_agents_saa_s_plat.Policies.Auth.Claims.{non_empty}

abbrev pub HasKeys : Dict String String → Type 0
HasKeys keys = All (λ (k : String × String). non_empty k.1 ≡ true) keys

-- the sizes and the times that the program relies on, and no empty API key
pub record IsWithin (s : Settings) : Type 0 where
  pub pool_size : pos 1 ≤ℤ s.postgres_pool_size
  pub max_overflow : pos 0 ≤ℤ s.postgres_max_overflow
  pub pool_timeout : pos 1 ≤ℤ s.postgres_pool_timeout_seconds
  pub pool_recycle : pos 30 ≤ℤ s.postgres_pool_recycle_seconds
  pub poll_interval : pos 1 ≤ℤ s.foundry_run_poll_interval_seconds
  pub keys : HasKeys s.tenant_api_keys

abbrev Env : Type 0
Env = Dict String String

Ensures : Outcome Settings × Env → Type 0
Ensures r = (s : Settings) → r.0 ≡ ok s → IsWithin s

int_step :
    (o : Option ℤ) (f : ℤ → Action Env Settings) (e : Env)
    → ((n : ℤ) → Ensures (f n e))
    → Ensures (continue (int_from o e).0 f (int_from o e).1)
unfolding Ensures
int_step none f e h = λ s k. absurd (cc)
int_step (some n) f e h = h n

max-le : (low n : ℤ) → low ≤ℤ max_ℤ low n
max-le low n = ground arith

at_least_step :
    (o : Option ℤ) (low : ℤ) (f : ℤ → Action Env Settings) (e : Env)
    → ((n : ℤ) → low ≤ℤ n → Ensures (f n e))
    → let (r, e') = continue (int_from o e).0 (λ n. pure (max_ℤ low n)) (int_from o e).1 in
      Ensures (continue r f e')
unfolding Ensures
at_least_step none low f e h = λ s k. absurd (cc)
at_least_step (some n) low f e h = h (max_ℤ low n) (max-le low n)

outcome_step :
    (r : Outcome Env) (f : Env → Action Env Settings) (e : Env)
    → ((keys : Env) → r ≡ ok keys → Ensures (f keys e))
    → Ensures (continue r f e)
unfolding Ensures
outcome_step (ok keys) f e h = h keys refl
outcome_step (err x) f e h = λ s k. absurd (cc)

returned : (s : Settings) (e : Env) → IsWithin s → Ensures (ok s, e)
unfolding Ensures
returned s e h = λ s' k. subst IsWithin (ok_inj k) h

usable-HasKeys : (keys : Env) → HasKeys (usable_keys keys)
usable-HasKeys keys = filter_sound (λ (k : String × String). non_empty k.1) keys

json-HasKeys :
    (json literal : Literal) (keys : Env) → keys_of_json json literal ≡ ok keys → HasKeys keys
json-HasKeys (dict_value found) literal keys h = subst HasKeys (ok_inj h) (usable-HasKeys found)
json-HasKeys other_value literal keys h = absurd (cc)
json-HasKeys invalid (dict_value found) keys h = subst HasKeys (ok_inj h) (usable-HasKeys found)
json-HasKeys invalid other_value keys h = absurd (cc)
json-HasKeys invalid invalid keys h = absurd (cc)

parsed-HasKeys :
    (json_loads literal_eval : String → Literal) (raw : String) (keys : Env)
    → parse_tenant_api_keys json_loads literal_eval raw ≡ ok keys
    → HasKeys keys
unfolding parse_tenant_api_keys
parsed-HasKeys json_loads literal_eval raw keys h = elim (Bool-cases (strip raw == "")) [
  | inl empty ↦ subst HasKeys (ok_inj (rw empty at h)) tt
  | inr given ↦ json-HasKeys _ _ keys (rw given at h)
]

all_within :
    (int_of : String → Option ℤ) (json_loads literal_eval : String → Literal) (e : Env)
    → Ensures (get_settings int_of json_loads literal_eval e)
unfolding get_settings
all_within int_of json_loads literal_eval e =
    int_step (int_of (env e "PROVISIONING_WORKER_POLL_SECONDS" "2")) _ e λ _.
      int_step (int_of (env e "PROVISIONING_JOB_MAX_ATTEMPTS" "3")) _ e λ _.
        int_step (int_of (env e "PROVISIONING_RETRY_BASE_SECONDS" "5")) _ e λ _.
          at_least_step (int_of (env e "FOUNDRY_RUN_POLL_INTERVAL_SECONDS" "1")) (pos 1) _ e
            λ interval at_interval.
              outcome_step
                (parse_tenant_api_keys json_loads literal_eval (env e "TENANT_API_KEYS_JSON" "")) _
                e
                λ keys parsed. int_step (int_of (env e "JWT_JWKS_CACHE_TTL_SECONDS" "300")) _ e λ _.
                  int_step (int_of (env e "DEFAULT_RATE_LIMIT_RPM" "60")) _ e λ _.
                    at_least_step (int_of (env e "POSTGRES_POOL_SIZE" "3")) (pos 1) _ e
                      λ size at_size.
                        at_least_step (int_of (env e "POSTGRES_MAX_OVERFLOW" "0")) (pos 0) _ e
                          λ overflow at_overflow.
                            at_least_step (int_of (env e "POSTGRES_POOL_TIMEOUT_SECONDS" "10"))
                              (pos 1) _ e
                              λ timeout at_timeout.
                                at_least_step (int_of (env e "POSTGRES_POOL_RECYCLE_SECONDS" "900"))
                                  (pos 30) _ e
                                  λ recycle at_recycle. returned _ e (record {
                                    pool_size = at_size;
                                    max_overflow = at_overflow;
                                    pool_timeout = at_timeout;
                                    pool_recycle = at_recycle;
                                    poll_interval = at_interval;
                                    keys = parsed-HasKeys json_loads literal_eval _ keys parsed;
                                  })

-- Settings that are read from the environment have a pool of one connection or more, no negative
-- overflow, a timeout and a polling interval of one second or more, connections that are kept for 30
-- seconds or more, and no empty API key.
pub get_settings-IsWithin :
    (int_of : String → Option ℤ) (json_loads literal_eval : String → Literal)
    (e : Dict String String) (s : Settings)
    → (get_settings int_of json_loads literal_eval e).0 ≡ ok s
    → IsWithin s
unfolding Ensures
get_settings-IsWithin int_of json_loads literal_eval e = all_within int_of json_loads literal_eval e
