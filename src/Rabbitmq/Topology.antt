-- ===== src/Rabbitmq/Topology.antt =====
-- Where a message goes after its time in a delay queue: the queues that NewPublisher of
-- internal/sms/adapters/rabbitmq/publisher.go declares against those that it publishes to.
use sms_mno_gateway.Base.{
  ℕ, ◌≤◌, pos, ℤ, if◌then◌else◌, Option, none, some, Str, [], ◌∷◌, ◌≡◌, refl, ◌∙◌, ◌⊎◌, inl, inr,
  ◌>>?◌, each_ok, arith, Bool-cases,
}
use sms_mno_gateway.Domain.Errors.{Error}
use sms_mno_gateway.Domain.Message.{Message, is_promotional}
use sms_mno_gateway.Rabbitmq.Publisher.{Amqp, Link}
use sms_mno_gateway.Rabbitmq.Results.{Routes, delay_queue}
use sms_mno_gateway.Rabbitmq.Brokers.{
  IsBroker, Keeps, Makes, then-Keeps, then-Makes, last-Makes, each-Keeps,
}
use sms_mno_gateway.Rabbitmq.Declarations.{
  to_int32, linked, with_channel, DelayArgs, QueueDeclare, Delays, delay_args, declare_queue,
  declare_queue_with_args, declare_delays, declare_queues, new_publisher,
}

-- The retry queue and the delay of the messages of a kind.
unfoldable pub retry_queue_of : Routes → Message → Str
retry_queue_of c m =
    if is_promotional m c.gateway_queue_name
    then c.queues.promotional_retry_queue
    else c.queues.transactional_retry_queue

unfoldable pub delay_of : Routes → Delays → Message → ℤ
delay_of c d m =
    if is_promotional m c.gateway_queue_name
    then d.promotional_delay_ms
    else d.transactional_delay_ms

module _ {W : Type 0} (amqp : Amqp W) (queue_declare : QueueDeclare W) (c : Routes) (d : Delays)
    (args_of : Str → W → Option (Option DelayArgs)) (law : IsBroker queue_declare args_of) where
  open c.queues use {
    save_to_db_queue, retry_queue, dead_letter_queue, transactional_delay_queue,
    promotional_delay_queue, transactional_retry_queue, promotional_retry_queue,
  }

  plain : Str → W → Option Error × W
  plain = declare_queue amqp queue_declare c d

  plain-Keeps : (q : Str) → Keeps args_of (plain q)
  unfolding plain declare_queue
  plain-Keeps q p b w h = law.kept q p none b w h

  plain-Makes : (q : Str) → Makes args_of (plain q) q none
  unfolding plain declare_queue
  plain-Makes q w h = law.made q none w h

  with_args : Str → DelayArgs → W → Option Error × W
  with_args = declare_queue_with_args amqp queue_declare c d

  with_args-Keeps : (q : Str) (a : DelayArgs) → Keeps args_of (with_args q a)
  unfolding with_args declare_queue_with_args
  with_args-Keeps q a p b w h = law.kept q p (some a) b w h

  with_args-Makes : (q : Str) (a : DelayArgs) → Makes args_of (with_args q a) q (some a)
  unfolding with_args declare_queue_with_args
  with_args-Makes q a w h = law.made q (some a) w h

  abbrev transactional_args : DelayArgs
  transactional_args = delay_args d.transactional_delay_ms transactional_retry_queue

  abbrev promotional_args : DelayArgs
  promotional_args = delay_args d.promotional_delay_ms promotional_retry_queue

  hold_transactional : W → Option Error × W
  hold_transactional = with_args transactional_delay_queue transactional_args

  hold_promotional : W → Option Error × W
  hold_promotional = with_args promotional_delay_queue promotional_args

  outputs : W → Option Error × W
  outputs = each_ok plain (save_to_db_queue ∷ retry_queue ∷ dead_letter_queue ∷ [])

  retries : W → Option Error × W
  retries = each_ok plain (transactional_retry_queue ∷ promotional_retry_queue ∷ [])

  delays : W → Option Error × W
  delays = declare_delays amqp queue_declare c d

  delays-Keeps : Keeps args_of delays
  unfolding delays declare_delays with_args hold_transactional hold_promotional
  delays-Keeps =
      then-Keeps args_of hold_transactional hold_promotional
        (with_args-Keeps transactional_delay_queue transactional_args)
        (with_args-Keeps promotional_delay_queue promotional_args)

  behind_outputs :
      (q : Str) (a : Option DelayArgs)
      → Makes args_of (retries >>? delays) q a
      → Makes args_of (declare_queues amqp queue_declare c d) q a
  unfolding declare_queues plain retries delays each_ok outputs
  behind_outputs q a H = last-Makes args_of outputs (retries >>? delays) q a H

  retry-Makes : (q : Str) → Makes args_of retries q none → Makes args_of (retries >>? delays) q none
  retry-Makes q H = then-Makes args_of retries delays q none H delays-Keeps

  transactional_retry-Makes : Makes args_of retries transactional_retry_queue none
  unfolding retries each_ok
  transactional_retry-Makes =
      then-Makes args_of (plain transactional_retry_queue)
        (each_ok plain (promotional_retry_queue ∷ [])) transactional_retry_queue none
        (plain-Makes transactional_retry_queue)
        (each-Keeps args_of plain (promotional_retry_queue ∷ []) plain-Keeps)

  promotional_retry-Makes : Makes args_of retries promotional_retry_queue none
  unfolding retries each_ok
  promotional_retry-Makes =
      last-Makes args_of (plain transactional_retry_queue)
        (each_ok plain (promotional_retry_queue ∷ [])) promotional_retry_queue none
        (then-Makes args_of (plain promotional_retry_queue) (each_ok plain [])
          promotional_retry_queue none (plain-Makes promotional_retry_queue)
          (each-Keeps args_of plain [] plain-Keeps))

  transactional_delay-Makes :
      Makes args_of delays transactional_delay_queue (some transactional_args)
  unfolding delays declare_delays with_args hold_transactional hold_promotional
  transactional_delay-Makes =
      then-Makes args_of hold_transactional hold_promotional transactional_delay_queue
        (some transactional_args) (with_args-Makes transactional_delay_queue transactional_args)
        (with_args-Keeps promotional_delay_queue promotional_args)

  promotional_delay-Makes : Makes args_of delays promotional_delay_queue (some promotional_args)
  unfolding delays declare_delays with_args hold_transactional hold_promotional
  promotional_delay-Makes =
      last-Makes args_of hold_transactional hold_promotional promotional_delay_queue
        (some promotional_args) (with_args-Makes promotional_delay_queue promotional_args)

  -- The queues that a message of either kind passes on its way back.
  record IsLeadingBack (w : W) : Type 0 where
    transactional_delay : args_of transactional_delay_queue w ≡ some (some transactional_args)
    promotional_delay : args_of promotional_delay_queue w ≡ some (some promotional_args)
    transactional_retry : args_of transactional_retry_queue w ≡ some none
    promotional_retry : args_of promotional_retry_queue w ≡ some none

  declare_queues-IsLeadingBack :
      (w : W)
      → (declare_queues amqp queue_declare c d w).0 ≡ none
      → IsLeadingBack (declare_queues amqp queue_declare c d w).1
  declare_queues-IsLeadingBack w h = record {
    transactional_delay =
        behind_outputs transactional_delay_queue (some transactional_args)
          (last-Makes args_of retries delays transactional_delay_queue (some transactional_args)
            transactional_delay-Makes)
          w h;
    promotional_delay =
        behind_outputs promotional_delay_queue (some promotional_args)
          (last-Makes args_of retries delays promotional_delay_queue (some promotional_args)
            promotional_delay-Makes)
          w h;
    transactional_retry =
        behind_outputs transactional_retry_queue none
          (retry-Makes transactional_retry_queue transactional_retry-Makes) w h;
    promotional_retry =
        behind_outputs promotional_retry_queue none
          (retry-Makes promotional_retry_queue promotional_retry-Makes) w h;
  }

  linked-inl :
      (failed : Option Error) (ch : ℕ) (v : W) (l : Link W)
      → (linked amqp queue_declare c d failed ch v).0 ≡ inl l
      → (failed ≡ none) × (l.world ≡ v)
  unfolding linked
  linked-inl (some e) ch v l h = absurd (cc h)
  linked-inl none ch v l h = (refl, cc)

  with_channel-IsLeadingBack :
      (opened : ℕ ⊎ Error) (w : W) (l : Link W)
      → (with_channel amqp queue_declare c d opened w).0 ≡ inl l
      → IsLeadingBack l.world
  unfolding with_channel
  with_channel-IsLeadingBack (inr e) w l h = absurd (cc h)
  with_channel-IsLeadingBack (inl ch) w l h =
      let r = declare_queues amqp queue_declare c d w in
      let (fine, same) = linked-inl r.0 ch r.1 l h in rw same (declare_queues-IsLeadingBack w fine)

  to_int32_small : (n : ℕ) → n ≤ 2147483647 → to_int32 (pos n) ≡ pos n
  unfolding to_int32
  to_int32_small n h = ground arith

  held :
      (delay : ℤ) (ms : ℕ) (q : Str)
      → delay ≡ pos ms
      → ms ≤ 2147483647
      → some (some (delay_args delay q))
        ≡ some (
            some (record {
              message_ttl = pos ms;
              dead_letter_exchange = [];
              dead_letter_routing_key = q;
            }))
  unfolding delay_args
  held delay ms q e small = rw (e, to_int32_small ms small) refl

  -- Once NewPublisher has returned without an error, the delay queue of a message, whose delay is
  -- from 0 to 2 ^ 31 - 1 milliseconds, holds it for that delay and then passes it to the retry queue
  -- of the same kind, which exists and has no arguments of its own.
  pub delay_queue_leads_back :
      (w : W) (l : Link W) (m : Message) (ms : ℕ)
      → (new_publisher amqp queue_declare c d w).0 ≡ inl l
      → delay_of c d m ≡ pos ms
      → ms ≤ 2147483647
      → (args_of (delay_queue c m) l.world
          ≡ some (
              some (record {
                message_ttl = pos ms;
                dead_letter_exchange = [];
                dead_letter_routing_key = retry_queue_of c m;
              })))
        × (args_of (retry_queue_of c m) l.world ≡ some none)
  unfolding delay_queue retry_queue_of delay_of new_publisher
  delay_queue_leads_back w l m ms h e small =
      let r = amqp.new_channel w in
      let back = with_channel-IsLeadingBack r.0 r.1 l h in
      elim (Bool-cases (is_promotional m c.gateway_queue_name)) [
        | inl p ↦ rw p (
          back.promotional_delay
              ∙ held d.promotional_delay_ms ms promotional_retry_queue (rw (p, delay_of) at e)
                  small,
          back.promotional_retry,
        )
        | inr t ↦ rw t (
          back.transactional_delay
              ∙ held d.transactional_delay_ms ms transactional_retry_queue (rw (t, delay_of) at e)
                  small,
          back.transactional_retry,
        )
      ]
