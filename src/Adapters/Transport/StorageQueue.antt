-- ===== src/Adapters/Transport/StorageQueue.antt =====
-- `StorageQueueProvisioningQueue`. A message that is sent without a timeout is sent with 0, the default.
use hosted_agents_saa_s_plat.Prelude.{
  string_eq, String, Option, none, some, List, [], ◌∷◌, ℤ, pos, max_ℤ,
}
use hosted_agents_saa_s_plat.Text.{prefix}
use hosted_agents_saa_s_plat.Collections.Dict.{Dict, get, put, pop}
use hosted_agents_saa_s_plat.Domain.Action.{Action, ok, pure, ◌>>=◌, ◌>>◌}
use hosted_agents_saa_s_plat.Domain.Models.{ProvisioningJob}
use hosted_agents_saa_s_plat.Domain.Interfaces.{ProvisioningQueue}
use hosted_agents_saa_s_plat.Adapters.Transport.{
  Payload, signal, retry_signal, dead_letter_of, Transported, in_delegate, in_service,
}

-- a `QueueClient` of azure-storage-queue; a message that is received has an id and a pop receipt
pub record QueueClient (C : Type 0) : Type 0 where
  pub send_message : String → ℤ → Action C (Unit {0})
  pub receive_messages : ℤ → Action C (List (String × String))
  pub delete_message : String → String → Action C (Unit {0})

-- the messages of the claimed jobs, and the service
pub record Signals (C : Type 0) : Type 0 where
  pub inflight : Dict String (String × String)
  pub service : C

abbrev pub sends : {C A : Type 0} → Action C A → Action (Signals C) A
sends m s = let (r, c) = m s.service in (r, record s { service = c })

-- the first of the messages that were received
abbrev pub first_message : List (String × String) → Option (String × String)
first_message [] = none
first_message (message ∷ messages) = some message

abbrev pub remember :
    {C : Type 0} → Option (String × String) → Option ProvisioningJob → Action (Signals C) (Unit {0})
remember (some message) (some job) s =
    (ok tt, record s { inflight = put s.inflight job.job_id message })
remember none job s = (ok tt, s)
remember (some message) none s = (ok tt, s)

module _ {C : Type 0} (dumps : Payload → String) (queue_client dead_letter_client : QueueClient C)
    (visibility_timeout_seconds : ℤ) where
  abbrev pub send_signal : Payload → ℤ → Action (Signals C) (Unit {0})
  send_signal payload visibility_timeout =
      sends (queue_client.send_message (dumps payload) (max_ℤ visibility_timeout (pos 0)))

  -- the constructor keeps the timeout at one second or more
  abbrev pub receive_signal : Action (Signals C) (Option (String × String))
  receive_signal =
      sends (queue_client.receive_messages (max_ℤ visibility_timeout_seconds (pos 1)))
      >>= λ messages. pure (first_message messages)

  abbrev pub delete_inflight : Option (String × String) → Action (Signals C) (Unit {0})
  delete_inflight none = pure tt
  delete_inflight (some (message_id, pop_receipt)) =
      sends (queue_client.delete_message message_id pop_receipt)

  abbrev pub ack_signal : String → Action (Signals C) (Unit {0})
  ack_signal job_id s =
      delete_inflight (get s.inflight job_id) (record s { inflight = pop s.inflight job_id })

  abbrev pub send_dead_letter : Payload → Action (Signals C) (Unit {0})
  send_dead_letter payload = sends (dead_letter_client.send_message (dumps payload) (pos 0))

  module _ {D : Type 0} (queue : ProvisioningQueue D) where
    abbrev pub provisioning_queue : ProvisioningQueue (Transported D (Signals C))
    provisioning_queue = record {
      enqueue = λ job.
          in_delegate (queue.enqueue job) >> in_service (send_signal (signal job.job_id) (pos 0));
      claim_next = λ now. in_service receive_signal >>= λ message.
          in_delegate (queue.claim_next now) >>= λ job.
          in_service (remember message job) >> pure job;
      mark_done = λ i. in_delegate (queue.mark_done i) >> in_service (ack_signal i);
      mark_retry = λ now i error delay.
          in_delegate (queue.mark_retry now i error delay)
          >> in_service (ack_signal i >> send_signal (retry_signal i) (max_ℤ delay (pos 0)));
      mark_dead_letter = λ i error.
          in_delegate (queue.mark_dead_letter i error)
          >> in_service (ack_signal i >> send_dead_letter (dead_letter_of i (prefix 500 error)));
      get_job = λ i. in_delegate (queue.get_job i);
    }
