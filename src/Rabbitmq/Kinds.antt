-- ===== src/Rabbitmq/Kinds.antt =====
-- Which delay queue a retryable message goes to, by the queue that it came from: the rule of
-- IsPromotional (internal/sms/domain/message.go) and of publisher.go, on what consumer.go stamps.
use sms_mno_gateway.Base.{
  false, [], Str, str_eq, str_eq_iff, is_empty-false, ◌≡◌, ◌≢◌, refl, Bool-cases, inl, inr,
}
use sms_mno_gateway.Domain.Message.{Message, is_promotional}
use sms_mno_gateway.Rabbitmq.Publisher.{wire}
use sms_mno_gateway.Rabbitmq.Results.{Routes, delay_queue}
use sms_mno_gateway.Rabbitmq.Consumer.{stamp}

-- A message that was consumed from a named queue is promotional exactly if that queue is the
-- gateway queue, whatever its packageId.
stamped-is_promotional :
    (queue gateway : Str) (m : Message)
    → queue ≢ []
    → gateway ≢ []
    → is_promotional (stamp queue m) gateway ≡ str_eq queue gateway
unfolding is_promotional stamp
stamped-is_promotional queue gateway m q g = rw (is_empty-false queue q, is_empty-false gateway g)

str_eq-false : (s t : Str) → s ≢ t → str_eq s t ≡ false
str_eq-false s t h = elim (Bool-cases (str_eq s t)) [
  | inl e ↦ absurd (h ((str_eq_iff s t).0 e))
  | inr e ↦ e
]

-- Take named queues for the gateway and for promotional retries, and let them differ. A message that
-- came from the gateway queue and fails goes to the promotional delay queue, whatever its packageId;
-- but when it comes back from the promotional retry queue and fails again, it goes to the
-- transactional delay queue.
pub promotional_retry_changes_queue :
    (c : Routes) (m : Message)
    → c.gateway_queue_name ≢ []
    → c.queues.promotional_retry_queue ≢ []
    → c.queues.promotional_retry_queue ≢ c.gateway_queue_name
    → (delay_queue c (stamp c.gateway_queue_name m) ≡ c.queues.promotional_delay_queue)
      × (delay_queue c
            (stamp c.queues.promotional_retry_queue (wire (stamp c.gateway_queue_name m)))
          ≡ c.queues.transactional_delay_queue)
unfolding delay_queue
promotional_retry_changes_queue c m g r other = (
  rw (
    stamped-is_promotional c.gateway_queue_name c.gateway_queue_name m g g,
    (str_eq_iff c.gateway_queue_name c.gateway_queue_name).1 refl,
  ),
  rw (
    stamped-is_promotional c.queues.promotional_retry_queue c.gateway_queue_name
        (wire (stamp c.gateway_queue_name m)) r g,
    str_eq-false c.queues.promotional_retry_queue c.gateway_queue_name other,
  ),
)
