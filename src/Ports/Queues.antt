-- ===== src/Ports/Queues.antt =====
-- internal/sms/ports/queue_publisher.go, queue_consumer.go and dynamic_config.go.
use sms_mno_gateway.Base.{ℤ, Bool, Option, Str, codes, List}
use sms_mno_gateway.Domain.Errors.{Error}
use sms_mno_gateway.Domain.Message.{Message}
use sms_mno_gateway.Domain.Result.{SendResult, BatchResult}

pub record QueueConfig : Type 0 where
  pub save_to_db_queue : Str
  pub retry_queue : Str
  pub dead_letter_queue : Str
  pub transactional_delay_queue : Str
  pub promotional_delay_queue : Str
  pub transactional_retry_queue : Str
  pub promotional_retry_queue : Str

-- An `error` that is nil is `none`.
pub record QueuePublisher (W : Type 0) : Type 0 where
  pub publish : Str → Message → W → Option Error × W
  pub publish_batch : Str → List Message → W → Option Error × W
  pub publish_result : SendResult → W → Option Error × W
  pub publish_batch_results : BatchResult → W → Option Error × W

pub record Delivery (W : Type 0) : Type 0 where
  pub messages : List Message
  pub ack : W → Option Error × W
  pub nack : Bool → W → Option Error × W

-- DynamicConfigStore.GetInt, at the values that are cached when it is read.
abbrev pub GetInt : Type 0
GetInt = Str → Str → ℤ → ℤ

abbrev pub ns_retry : Str
ns_retry = codes "retry"

abbrev pub field_max_retries_transactional : Str
field_max_retries_transactional = codes "max_retries_transactional"

abbrev pub field_max_retries_promotional : Str
field_max_retries_promotional = codes "max_retries_promotional"

abbrev pub ns_scheduler_promotional : Str
ns_scheduler_promotional = codes "scheduler:promotional"

abbrev pub field_credit_multiplier : Str
field_credit_multiplier = codes "credit_multiplier"

abbrev pub field_refill_period_ms : Str
field_refill_period_ms = codes "refill_period_ms"

abbrev pub field_max_starvation_age_sec : Str
field_max_starvation_age_sec = codes "max_starvation_age_sec"
