-- ===== src/Telemetry.antt =====
-- The tags of src/saas_platform/telemetry.py and what is written to a span. The span is a parameter,
-- be it that of OpenTelemetry or the one that does nothing; how it is started is not modelled.
use hosted_agents_saa_s_plat.Prelude.{
  string_eq, String, Bool, Option, none, some, [], ◌∷◌, ◌++◌, ℤ, pos, ◌≡◌, refl,
}
use hosted_agents_saa_s_plat.Collections.Dict.{Dict}
use hosted_agents_saa_s_plat.Domain.Action.{Action, Raised, pure, ◌>>◌}

pub data TagValue (F : Type 0) : Type 0 where
  text_tag : String → TagValue F
  int_tag : ℤ → TagValue F
  float_tag : F → TagValue F
  bool_tag : Bool → TagValue F

-- the arguments of `telemetry_tags`
pub record Tags (F : Type 0) : Type 0 where
  pub tenant_id : Option String
  pub agent_id : Option String
  pub request_id : Option String
  pub job_id : Option String
  pub plan : Option String
  pub model : Option String
  pub environment : Option String
  pub tokens_in : Option ℤ
  pub tokens_out : Option ℤ
  pub cost_estimate : Option F
  pub latency_ms : Option ℤ
  pub failure_type : Option String

module _ {F : Type 0} where
  -- an entry of the dict, unless its value is None
  abbrev entry : {A : Type 0} → String → (A → TagValue F) → Option A → Dict String (TagValue F)
  entry name tag none = []
  entry name tag (some value) = (name, tag value) ∷ []

  unfoldable pub telemetry_tags : Tags F → Dict String (TagValue F)
  telemetry_tags t =
      entry "tenant_id" text_tag t.tenant_id
      ++ (entry "agent_id" text_tag t.agent_id
          ++ (entry "request_id" text_tag t.request_id
              ++ (entry "job_id" text_tag t.job_id
                  ++ (entry "plan" text_tag t.plan
                      ++ (entry "model" text_tag t.model
                          ++ (entry "environment" text_tag t.environment
                              ++ (entry "tokens_in" int_tag t.tokens_in
                                  ++ (entry "tokens_out" int_tag t.tokens_out
                                      ++ (entry "cost_estimate" float_tag t.cost_estimate
                                          ++ (entry "latency_ms" int_tag t.latency_ms
                                              ++ entry "failure_type" text_tag
                                                  t.failure_type))))))))))

-- a value that is given as an attribute: None, one that a span takes, or another with its `str`
pub data Attribute (F : Type 0) : Type 0 where
  missing : Attribute F
  plain : TagValue F → Attribute F
  other : String → Attribute F

pub record Span (F S : Type 0) : Type 0 where
  pub set_attribute : String → TagValue F → Action S (Unit {0})
  pub record_exception : Raised → Action S (Unit {0})
  -- `set_status` with the status of an error, where OpenTelemetry is installed
  pub set_error : Option (Raised → Action S (Unit {0}))

module _ {F S : Type 0} (span : Span F S) where
  abbrev pub set_one : String → Attribute F → Action S (Unit {0})
  set_one key missing = pure tt
  set_one key (plain value) = span.set_attribute key value
  set_one key (other text) = span.set_attribute key (text_tag text)

  unfoldable pub span_set_attributes : Dict String (Attribute F) → Action S (Unit {0})
  span_set_attributes [] = pure tt
  span_set_attributes ((key, value) ∷ attributes) =
      set_one key value >> span_set_attributes attributes

  abbrev set_error_status : Option (Raised → Action S (Unit {0})) → Raised → Action S (Unit {0})
  set_error_status none e = pure tt
  set_error_status (some set) e = set e

  unfoldable pub span_record_error : Raised → String → Action S (Unit {0})
  span_record_error e failure_type =
      span.set_attribute "failure_type" (text_tag failure_type)
      >> (span.record_exception e >> set_error_status span.set_error e)

abbrev no_tags : Tags ℤ
no_tags = record {
  tenant_id = none;
  agent_id = none;
  request_id = none;
  job_id = none;
  plan = none;
  model = none;
  environment = none;
  tokens_in = none;
  tokens_out = none;
  cost_estimate = none;
  latency_ms = none;
  failure_type = none;
}

two_tags :
    telemetry_tags (record no_tags { plan = some "starter"; tokens_in = some (pos 3) })
    ≡ ("plan", text_tag "starter") ∷ ("tokens_in", int_tag (pos 3)) ∷ []
unfolding telemetry_tags
two_tags = refl
