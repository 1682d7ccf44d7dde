-- ===== src/Tests/Topology.antt =====
-- The queues that a publisher declares with a broker that has none.
use sms_mno_gateway.Base.{
  pos, false, if◌then◌else◌, Option, none, some, Str, codes, str_eq, str_eq_refl, str_eq_iff, [],
  ◌≡◌, refl, inl, inr, each_ok, arith, Bool-cases,
}
use sms_mno_gateway.Domain.Errors.{Error, foreign}
use sms_mno_gateway.Domain.Message.{is_promotional}
use sms_mno_gateway.Rabbitmq.Publisher.{Amqp, Link}
use sms_mno_gateway.Rabbitmq.Results.{delay_queue}
use sms_mno_gateway.Rabbitmq.Declarations.{
  DelayArgs, QueueDeclare, Delays, delay_args, declare_queue, declare_queue_with_args,
  declare_delays, declare_queues, new_publisher, with_channel, linked, to_int32,
}
use sms_mno_gateway.Rabbitmq.Brokers.{IsBroker}
use sms_mno_gateway.Rabbitmq.Topology.{delay_queue_leads_back, retry_queue_of, delay_of}
use sms_mno_gateway.Tests.Fixtures.{hello, routes}

-- The arguments of each queue that exists. This broker refuses to declare a queue twice.
abbrev Queues : Type 0
Queues = Str → Option (Option DelayArgs)

add_queue : Option (Option DelayArgs) → Str → Option DelayArgs → Queues → Option Error × Queues
add_queue (some b) q a w = (some (foreign (codes "queue exists")), w)
add_queue none q a w = (none, λ p. if str_eq p q then some a else w p)

strict_declare : QueueDeclare Queues
unfolding add_queue
strict_declare q a w = add_queue (w q) q a w

add_queue-made :
    (o : Option (Option DelayArgs)) (q : Str) (a : Option DelayArgs) (w : Queues)
    → (add_queue o q a w).0 ≡ none
    → (add_queue o q a w).1 q ≡ some a
unfolding add_queue
add_queue-made (some b) q a w h = absurd (cc h)
add_queue-made none q a w h = rw (str_eq_refl q) refl

add_queue-kept :
    (o : Option (Option DelayArgs)) (q p : Str) (a b : Option DelayArgs) (w : Queues)
    → w q ≡ o
    → w p ≡ some b
    → (add_queue o q a w).1 p ≡ some b
unfolding add_queue
add_queue-kept (some b') q p a b w e h = h
add_queue-kept none q p a b w e h = elim (Bool-cases (str_eq p q)) [
  | inr other ↦ rw other h
  | inl same ↦ let p_q = (str_eq_iff p q).0 same in absurd cc
]

strict-IsBroker : IsBroker strict_declare (λ q w. w q)
unfolding strict_declare
strict-IsBroker = record {
  made = λ q a w h. add_queue-made (w q) q a w h;
  kept = λ q p a b w h. add_queue-kept (w q) q p a b w refl h;
}

abbrev one_channel : Amqp Queues
one_channel = record {
  new_channel = λ w. (inl 1, w);
  is_closed = λ ch w. false;
  publish_with_context = λ ch q body w. (none, w);
}

abbrev short_delays : Delays
short_delays = record { transactional_delay_ms = pos 5000; promotional_delay_ms = pos 30000 }

abbrev no_queues : Queues
no_queues = λ q. none

connected_link : Link Queues
connected_link = record {
  channel = some 1;
  world = (declare_queues one_channel strict_declare routes short_delays no_queues).1;
}

publisher_started :
    (new_publisher one_channel strict_declare routes short_delays no_queues).0 ≡ inl connected_link
unfolding connected_link new_publisher with_channel linked declare_queues declare_queue
    declare_queue_with_args declare_delays strict_declare add_queue each_ok str_eq delay_args
    to_int32
publisher_started = refl

hello_delay : delay_of routes short_delays hello ≡ pos 30000
unfolding delay_of is_promotional str_eq
hello_delay = refl

delay_queue_leads_back_example :
    (connected_link.world (delay_queue routes hello)
      ≡ some (
          some (record {
            message_ttl = pos 30000;
            dead_letter_exchange = [];
            dead_letter_routing_key = retry_queue_of routes hello;
          })))
    × (connected_link.world (retry_queue_of routes hello) ≡ some none)
delay_queue_leads_back_example =
    delay_queue_leads_back one_channel strict_declare routes short_delays (λ q w. w q)
      strict-IsBroker no_queues connected_link hello 30000 publisher_started hello_delay
      (omega arith)
