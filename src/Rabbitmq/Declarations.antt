-- ===== src/Rabbitmq/Declarations.antt =====
-- NewPublisher of internal/sms/adapters/rabbitmq/publisher.go, with DeclareQueue and
-- DeclareQueueWithArgs of connection.go: the queues that the gateway publishes to.
use sms_mno_gateway.Base.{
  ℕ, ◌-◌, ◌%◌, ℤ, pos, negsuc, leb, if◌then◌else◌, Option, none, some, Str, codes, [], ◌∷◌, ◌++◌,
  ◌⊎◌, inl, inr, ◌>>?◌, each_ok,
}
use sms_mno_gateway.Domain.Errors.{Error, wrapped, error_text}
use sms_mno_gateway.Rabbitmq.Publisher.{Amqp, Link}
use sms_mno_gateway.Rabbitmq.Results.{Routes}

-- The arguments of a queue that holds messages for a time and then passes them to another one.
pub record DelayArgs : Type 0 where
  pub message_ttl : ℤ
  pub dead_letter_exchange : Str
  pub dead_letter_routing_key : Str

-- `int32(x)`.
unfoldable pub to_int32 : ℤ → ℤ
to_int32 (pos n) =
    let r = n % 4294967296 in if leb r 2147483647 then pos r else negsuc (4294967295 - r)
to_int32 (negsuc n) =
    let r = 4294967295 - n % 4294967296 in
    if leb r 2147483647 then pos r else negsuc (4294967295 - r)

-- QueueDeclare of the client library, for a durable queue that is neither exclusive nor deleted
-- automatically, with its arguments if it has any.
abbrev pub QueueDeclare : Type 0 → Type 0
QueueDeclare W = Str → Option DelayArgs → W → Option Error × W

-- The delays in milliseconds are ints.
pub record Delays : Type 0 where
  pub transactional_delay_ms : ℤ
  pub promotional_delay_ms : ℤ

unfoldable pub delay_args : ℤ → Str → DelayArgs
delay_args delay_ms retry_queue = record {
  message_ttl = to_int32 delay_ms;
  dead_letter_exchange = [];
  dead_letter_routing_key = retry_queue;
}

module _ {W : Type 0} (amqp : Amqp W) (queue_declare : QueueDeclare W) (c : Routes)
    (d : Delays) where
  open c.queues use {
    save_to_db_queue, retry_queue, dead_letter_queue, transactional_delay_queue,
    promotional_delay_queue, transactional_retry_queue, promotional_retry_queue,
  }

  unfoldable pub declare_queue : Str → W → Option Error × W
  declare_queue queue = queue_declare queue none

  unfoldable pub declare_queue_with_args : Str → DelayArgs → W → Option Error × W
  declare_queue_with_args queue args = queue_declare queue (some args)

  unfoldable pub declare_delays : W → Option Error × W
  unfolding declare_queue_with_args delay_args
  declare_delays =
      declare_queue_with_args transactional_delay_queue
        (delay_args d.transactional_delay_ms transactional_retry_queue)
      >>? declare_queue_with_args promotional_delay_queue
          (delay_args d.promotional_delay_ms promotional_retry_queue)

  unfoldable pub declare_queues : W → Option Error × W
  unfolding declare_queue declare_delays
  declare_queues =
      each_ok declare_queue (save_to_db_queue ∷ retry_queue ∷ dead_letter_queue ∷ [])
      >>? (each_ok declare_queue (transactional_retry_queue ∷ promotional_retry_queue ∷ [])
          >>? declare_delays)

  unfoldable pub linked : Option Error → ℕ → W → (Link W ⊎ Error) × W
  linked (some e) ch w = (inr e, w)
  linked none ch w = (inl (record { channel = some ch; world = w }), w)

  unfoldable pub with_channel : ℕ ⊎ Error → W → (Link W ⊎ Error) × W
  unfolding linked declare_queues
  with_channel (inr e) w = (inr (wrapped (codes "open publisher channel: " ++ error_text e) e), w)
  with_channel (inl ch) w = let r = declare_queues w in linked r.0 ch r.1

  unfoldable pub new_publisher : W → (Link W ⊎ Error) × W
  unfolding with_channel
  new_publisher w = let r = amqp.new_channel w in with_channel r.0 r.1
