-- ===== src/Adapters/Transport.antt =====
-- src/saas_platform/adapters/queue.py: queues that signal over a message service what a durable queue
-- stores. The clients of the services and `json.dumps` are parameters; the constructors, which only
-- choose the client, are not modelled.
pub mod StorageQueue
pub mod ServiceBus
pub mod Delegate
use hosted_agents_saa_s_plat.Prelude.{String}
use hosted_agents_saa_s_plat.Domain.Action.{Action}

-- the dicts that are sent
pub data Payload : Type 0 where
  signal : String → Payload
  retry_signal : String → Payload
  dead_letter_of : String → String → Payload

-- the durable queue, and what the transport keeps and sends
pub record Transported (D C : Type 0) : Type 0 where
  pub delegate : D
  pub service : C

module _ {D C A : Type 0} where
  abbrev pub in_delegate : Action D A → Action (Transported D C) A
  in_delegate m s = let (r, d) = m s.delegate in (r, record s { delegate = d })

  abbrev pub in_service : Action C A → Action (Transported D C) A
  in_service m s = let (r, c) = m s.service in (r, record s { service = c })
