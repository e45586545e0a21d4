-- ===== src/Adapters/Transport/ServiceBus.antt =====
-- `ServiceBusProvisioningQueue`.
use hosted_agents_saa_s_plat.Prelude.{
  string_eq, ◌+◌, ◌*◌, ◌/◌, String, List, ℤ, pos_part, if◌then◌else◌,
}
use hosted_agents_saa_s_plat.Text.{prefix}
use hosted_agents_saa_s_plat.Domain.Action.{Action, raise, ◌>>=◌, ◌>>◌}
use hosted_agents_saa_s_plat.Domain.Models.{Datetime}
use hosted_agents_saa_s_plat.Domain.Interfaces.{ProvisioningQueue}
use hosted_agents_saa_s_plat.Adapters.Storage.Queue.{seconds, overflows, overflow_error}
use hosted_agents_saa_s_plat.Adapters.Transport.{
  Payload, signal, retry_signal, dead_letter_of, Transported, in_delegate, in_service,
}

-- a `ServiceBusClient` with the senders and the receiver of its two queues
pub record ServiceBusClient (C : Type 0) : Type 0 where
  pub send_messages : String → Action C (Unit {0})
  pub schedule_messages : String → Datetime → Action C (Unit {0})
  pub send_dead_letter : String → Action C (Unit {0})
  pub receive_messages : Action C (List String)

module _ {D C : Type 0} (queue : ProvisioningQueue D) (dumps : Payload → String)
    (client : ServiceBusClient C) where
  -- `now.replace(microsecond=0) + timedelta(seconds=max(retry_in_seconds, 0))`
  abbrev pub schedule_at : Datetime → ℤ → Datetime
  schedule_at now retry_in_seconds = now / 1000000 * 1000000 + seconds (pos_part retry_in_seconds)

  -- the signal of a retry, unless its time overflows
  abbrev pub send_scheduled : Datetime → String → ℤ → Action C (Unit {0})
  send_scheduled now i retry_in_seconds =
      if overflows (now / 1000000 * 1000000) retry_in_seconds
      then raise (overflow_error retry_in_seconds)
      else client.schedule_messages (dumps (retry_signal i)) (schedule_at now retry_in_seconds)

  abbrev pub provisioning_queue : ProvisioningQueue (Transported D C)
  provisioning_queue = record {
    enqueue = λ job.
        in_delegate (queue.enqueue job)
        >> in_service (client.send_messages (dumps (signal job.job_id)));
    claim_next =
        λ now. in_service client.receive_messages >>= λ _. in_delegate (queue.claim_next now);
    mark_done = λ i. in_delegate (queue.mark_done i);
    mark_retry = λ now i error delay.
        in_delegate (queue.mark_retry now i error delay) >> in_service (send_scheduled now i delay);
    mark_dead_letter = λ i error.
        in_delegate (queue.mark_dead_letter i error)
        >> in_service (client.send_dead_letter (dumps (dead_letter_of i (prefix 500 error))));
    get_job = λ i. in_delegate (queue.get_job i);
  }
