-- ===== src/Rabbitmq/Results.antt =====
-- PublishResult and PublishBatchResults of internal/sms/adapters/rabbitmq/publisher.go.
use sms_mno_gateway.Base.{
  not, if◌then◌else◌, Option, none, Str, List, map, keep, is_empty, ◌>>?◌, each_ok,
}
use sms_mno_gateway.Domain.Errors.{Error}
use sms_mno_gateway.Domain.Message.{Message, is_promotional}
use sms_mno_gateway.Domain.Result.{
  SendResult, BatchResult, ResultType, success, retryable, permanent,
}
use sms_mno_gateway.Ports.Queues.{QueueConfig, QueuePublisher}
use sms_mno_gateway.Rabbitmq.Publisher.{Amqp, Link, publish, publish_batch}

-- The fields of Publisher that do not change.
pub record Routes : Type 0 where
  pub queues : QueueConfig
  pub gateway_queue_name : Str

abbrev pub messages_of : List SendResult → List Message
messages_of = map (λ r. r.message)

-- The delay queue of a retryable message.
unfoldable pub delay_queue : Routes → Message → Str
delay_queue c m =
    if is_promotional m c.gateway_queue_name
    then c.queues.promotional_delay_queue
    else c.queues.transactional_delay_queue

unfoldable pub result_queue : Routes → ResultType → Message → Str
unfolding delay_queue
result_queue c success m = c.queues.save_to_db_queue
result_queue c retryable m = delay_queue c m
result_queue c permanent m = c.queues.dead_letter_queue

unfoldable pub promotional_retries : Routes → List SendResult → List Message
promotional_retries c rs = keep (λ m. is_promotional m c.gateway_queue_name) (messages_of rs)

unfoldable pub transactional_retries : Routes → List SendResult → List Message
transactional_retries c rs =
    keep (λ m. not (is_promotional m c.gateway_queue_name)) (messages_of rs)

module _ {W : Type 0} (amqp : Amqp W) (c : Routes) where
  open c.queues use {
    save_to_db_queue, dead_letter_queue, transactional_delay_queue, promotional_delay_queue,
  }

  unfoldable pub save_failure : ResultType → Message → Link W → Option Error × Link W
  save_failure success m l = (none, l)
  save_failure retryable m l = (none, l)
  save_failure permanent m l = publish amqp save_to_db_queue m l

  unfoldable pub publish_result : SendResult → Link W → Option Error × Link W
  unfolding save_failure
  publish_result r =
      publish amqp (result_queue c r.outcome r.message) r.message
      >>? save_failure r.outcome r.message

  unfoldable pub publish_saved : List SendResult → Link W → Option Error × Link W
  publish_saved = each_ok (λ r. publish amqp save_to_db_queue r.message)

  -- A batch is published only if it holds a message.
  unfoldable pub publish_group : Str → List Message → Link W → Option Error × Link W
  publish_group queue ms l = if is_empty ms then (none, l) else publish_batch amqp queue ms l

  unfoldable pub publish_batch_results : BatchResult → Link W → Option Error × Link W
  unfolding publish_saved publish_group
  publish_batch_results b =
      publish_saved b.successful
      >>? (publish_group transactional_delay_queue (transactional_retries c b.retryables)
          >>? (publish_group promotional_delay_queue (promotional_retries c b.retryables)
              >>? (publish_group dead_letter_queue (messages_of b.failed)
                  >>? publish_group save_to_db_queue (messages_of b.failed))))

  unfoldable pub publisher : QueuePublisher (Link W)
  publisher = record {
    publish = publish amqp;
    publish_batch = publish_batch amqp;
    publish_result = publish_result;
    publish_batch_results = publish_batch_results;
  }
