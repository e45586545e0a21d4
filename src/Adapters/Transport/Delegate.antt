-- ===== src/Adapters/Transport/Delegate.antt =====
-- What a transport does to the durable queue behind it, whatever the service does.
use hosted_agents_saa_s_plat.Prelude.{String, Option, ℤ, ◌≡◌, ◌⊎◌, inl, inr, refl, ap}
use hosted_agents_saa_s_plat.Domain.Action.{
  Action, Raised, Outcome, ok, err, pure, continue, ◌>>=◌, ◌>>◌,
}
use hosted_agents_saa_s_plat.Domain.Models.{Datetime, ProvisioningJob}
use hosted_agents_saa_s_plat.Domain.Interfaces.{ProvisioningQueue}
use hosted_agents_saa_s_plat.Adapters.Transport.{Payload, Transported, in_delegate, in_service}
use hosted_agents_saa_s_plat.Adapters.Transport.StorageQueue
use hosted_agents_saa_s_plat.Adapters.Transport.StorageQueue.{
  QueueClient, Signals, first_message, remember, receive_signal,
}
use hosted_agents_saa_s_plat.Adapters.Transport.ServiceBus
use hosted_agents_saa_s_plat.Adapters.Transport.ServiceBus.{ServiceBusClient}

-- a call of a queue, and what it returns
pub data Call : Type 0 where
  enqueue_call : ProvisioningJob → Call
  claim_call : Datetime → Call
  done_call : String → Call
  retry_call : Datetime → String → String → ℤ → Call
  dead_letter_call : String → String → Call
  get_call : String → Call

pub data Answer : Type 0 where
  no_value : Answer
  job_value : Option ProvisioningJob → Answer

abbrev answered : {S : Type 0} → Action S (Unit {0}) → Action S Answer
answered m = m >> pure no_value

abbrev with_job : {S : Type 0} → Action S (Option ProvisioningJob) → Action S Answer
with_job m = m >>= λ job. pure (job_value job)

abbrev pub perform : {S : Type 0} → ProvisioningQueue S → Call → Action S Answer
perform queue (enqueue_call job) = answered (queue.enqueue job)
perform queue (claim_call now) = with_job (queue.claim_next now)
perform queue (done_call i) = answered (queue.mark_done i)
perform queue (retry_call now i e delay) = answered (queue.mark_retry now i e delay)
perform queue (dead_letter_call i e) = answered (queue.mark_dead_letter i e)
perform queue (get_call i) = with_job (queue.get_job i)

-- Beside what the durable queue does itself: it did the same here, and returned the same or an
-- exception came after it; or an exception came before it, and the durable queue is as it was.
abbrev pub Follows :
    {D C A : Type 0} → Outcome A × D → Outcome A × Transported D C → Transported D C → Type 0
Follows (own, d) (r, s') s =
    ((s'.delegate ≡ d) × ((r ≡ own) ⊎ ((e : Raised) × (r ≡ err e))))
    ⊎ ((s'.delegate ≡ s.delegate) × (e : Raised) × (r ≡ err e))

abbrev as_ok : {A B : Type 0} → (A → B) → Outcome A → Outcome B
as_ok f (ok a) = ok (f a)
as_ok f (err e) = err e

module _ {D C : Type 0} where
  -- a step after which the durable queue is as it was, and that returns this value if it returns
  abbrev Quiet : {A : Type 0} → A → Outcome A × Transported D C → D → Type 0
  Quiet a (r, s') d = (s'.delegate ≡ d) × ((r ≡ ok a) ⊎ ((e : Raised) × (r ≡ err e)))

  service-Quiet :
      (r : Outcome (Unit {0})) (s : Transported D C) (c : C)
      → Quiet tt (r, record s { service = c }) s.delegate
  service-Quiet (ok u) s c = (refl, inl refl)
  service-Quiet (err e) s c = (refl, inr (e, refl))

  then-Quiet :
      {A : Type 0} (r : Outcome (Unit {0})) (s : Transported D C) (c : C) (a : A)
      → Quiet a (continue r (λ _. pure a) (record s { service = c })) s.delegate
  then-Quiet (ok u) s c a = (refl, inl refl)
  then-Quiet (err e) s c a = (refl, inr (e, refl))

  delegate_first :
      {A : Type 0} (r : Outcome A) (d : D) (k : A → Action (Transported D C) A)
      (s : Transported D C)
      → ((a : A) → Quiet a (k a (record s { delegate = d })) d)
      → Follows (r, d) (continue r k (record s { delegate = d })) s
  delegate_first (ok a) d k s quiet = inl (quiet a)
  delegate_first (err e) d k s quiet = inl (refl, inl refl)

  delegate_only :
      {A : Type 0} (r : Outcome A) (d : D) (s : Transported D C)
      → Follows (r, d) (r, record s { delegate = d }) s
  delegate_only r d s = inl (refl, inl refl)

  -- a value that is passed on
  passed :
      {A B : Type 0} (own : Outcome A) (d : D) (r : Outcome A) (s' s : Transported D C) (f : A → B)
      → Follows (own, d) (r, s') s
      → Follows (continue own (λ a. pure (f a)) d) (continue r (λ a. pure (f a)) s') s
  passed (ok a) d (ok b) s' s f (inl (same, inl e)) = inl (same, inl (ap (λ o. as_ok f o) e))
  passed (ok a) d (ok b) s' s f (inl (same, inr (e, h))) = absurd (cc)
  passed (ok a) d (err e') s' s f (inl (same, h)) = inl (same, inr (e', refl))
  passed (err e) d (ok b) s' s f (inl (same, inl h)) = absurd (cc)
  passed (err e) d (ok b) s' s f (inl (same, inr (e', h))) = absurd (cc)
  passed (err e) d (err e') s' s f (inl (same, h)) = inl (same, inr (e', refl))
  passed own d (ok b) s' s f (inr (same, e, h)) = absurd (cc)
  passed own d (err e') s' s f (inr (same, e, h)) = inr (same, e', refl)

  -- the service first
  service_first :
      {A B : Type 0} (own : Outcome B × D) (r : Outcome A) (s s1 : Transported D C)
      (k : A → Action (Transported D C) B)
      → s1.delegate ≡ s.delegate
      → ((a : A) → Follows own (k a s1) s)
      → Follows own (continue r k s1) s
  service_first own (ok a) s s1 k same follows = follows a
  service_first own (err e) s s1 k same follows = inr (same, e, refl)

module _ {D C : Type 0} (queue : ProvisioningQueue D) where
  -- an effect of the service after a method of the durable queue that returns nothing
  effect_after :
      (own : Action D (Unit {0})) (effect : Action C (Unit {0})) (s : Transported D C)
      → Follows (answered own s.delegate) (answered (in_delegate own >> in_service effect) s) s
  effect_after own effect s =
      let (r, d) = own s.delegate in
      let s1 : Transported D C = record s { delegate = d } in
      let done = (in_delegate own >> in_service effect) s in
      passed r d done.0 done.1 s (λ _. no_value)
        (delegate_first r d (λ _. in_service effect) s
          (λ _. service-Quiet (effect s.service).0 s1 (effect s.service).1))

  no_effect :
      {A : Type 0} (own : Action D A) (f : A → Answer) (s : Transported D C)
      → Follows ((own >>= λ a. pure (f a)) s.delegate) ((in_delegate own >>= λ a. pure (f a)) s) s
  no_effect own f s =
      let (r, d) = own s.delegate in
      passed r d r (record s { delegate = d }) s f (delegate_only r d s)

module _ {D C : Type 0} (queue : ProvisioningQueue D) (dumps : Payload → String)
    (queue_client dead_letter_client : QueueClient C) (visibility_timeout_seconds : ℤ) where
  abbrev through_storage : ProvisioningQueue (Transported D (Signals C))
  through_storage =
      StorageQueue.provisioning_queue dumps queue_client dead_letter_client
        visibility_timeout_seconds queue

  claim_after :
      (now : Datetime) (message : Option (String × String)) (s : Transported D (Signals C))
      → Follows
          (queue.claim_next now s.delegate)
          ((in_delegate (queue.claim_next now) >>= λ job.
              in_service (remember message job) >> pure job)
            s)
          s
  claim_after now message s =
      let (r, d) = queue.claim_next now s.delegate in
      delegate_first r d (λ job. in_service (remember message job) >> pure job) s
        (λ job.
          then-Quiet (remember message job s.service).0 (record s { delegate = d })
            (remember message job s.service).1 job)

  -- Whatever the Storage Queue does, a call through it does to the durable queue exactly what the same
  -- call does to it alone, and returns the same or raises; or it raises and the durable queue is as it
  -- was.
  pub perform-Follows :
      (call : Call) (s : Transported D (Signals C))
      → Follows (perform queue call s.delegate) (perform through_storage call s) s
  perform-Follows (enqueue_call job) s = effect_after queue (queue.enqueue job) _ s
  perform-Follows (claim_call now) s =
      let (r, c) =
        receive_signal dumps queue_client dead_letter_client visibility_timeout_seconds s.service in
      let s1 : Transported D (Signals C) = record s { service = c } in
      let own = queue.claim_next now s.delegate in
      let k : Option (String × String)
          → Action (Transported D (Signals C)) (Option ProvisioningJob) =
        λ message. in_delegate (queue.claim_next now) >>= λ job.
        in_service (remember message job) >> pure job in
      let done = continue r k s1 in
      passed own.0 own.1 done.0 done.1 s job_value
        (service_first own r s s1 k refl (λ message. claim_after now message s1))
  perform-Follows (done_call i) s = effect_after queue (queue.mark_done i) _ s
  perform-Follows (retry_call now i e delay) s =
      effect_after queue (queue.mark_retry now i e delay) _ s
  perform-Follows (dead_letter_call i e) s = effect_after queue (queue.mark_dead_letter i e) _ s
  perform-Follows (get_call i) s = no_effect queue (queue.get_job i) job_value s

module _ {D C : Type 0} (queue : ProvisioningQueue D) (dumps : Payload → String)
    (client : ServiceBusClient C) where
  abbrev through_bus : ProvisioningQueue (Transported D C)
  through_bus = ServiceBus.provisioning_queue queue dumps client

  -- Whatever the Service Bus does, a call through it does to the durable queue exactly what the same
  -- call does to it alone, and returns the same or raises; or it raises and the durable queue is as it
  -- was.
  pub perform_bus-Follows :
      (call : Call) (s : Transported D C)
      → Follows (perform queue call s.delegate) (perform through_bus call s) s
  perform_bus-Follows (enqueue_call job) s = effect_after queue (queue.enqueue job) _ s
  perform_bus-Follows (claim_call now) s =
      let (r, c) = client.receive_messages s.service in
      let s1 : Transported D C = record s { service = c } in
      let own = queue.claim_next now s.delegate in
      let done = continue r (λ _. in_delegate (queue.claim_next now)) s1 in
      passed own.0 own.1 done.0 done.1 s job_value (
        service_first own r s s1 (λ _. in_delegate (queue.claim_next now)) refl
          (λ _. delegate_only own.0 own.1 s1))
  perform_bus-Follows (done_call i) s = no_effect queue (queue.mark_done i) (λ _. no_value) s
  perform_bus-Follows (retry_call now i e delay) s =
      effect_after queue (queue.mark_retry now i e delay) _ s
  perform_bus-Follows (dead_letter_call i e) s = effect_after queue (queue.mark_dead_letter i e) _ s
  perform_bus-Follows (get_call i) s = no_effect queue (queue.get_job i) job_value s
