-- ===== src/Tests/Settlement.antt =====
-- A delivery that is processed, published and acknowledged.
use mathlib.Core.List.{append-nil}
use sms_mno_gateway.Base.{true, false, none, some, List, [], ◌∷◌, ◌⊎◌, inl, inr, arith, ap, or_else}
use sms_mno_gateway.Domain.Errors.{Error}
use sms_mno_gateway.Domain.Message.{Message}
use sms_mno_gateway.Domain.Result.{
  SendResult, BatchResult, new_success_result, new_batch_result, add_results,
}
use sms_mno_gateway.Domain.Outcome.{AreResultsOf, new_success_result-IsResultOf}
use sms_mno_gateway.Domain.Batch.{
  add_results-IsSorted, add_results-origins, AreResultsOf-origins, new_batch_result-IsSorted,
  new_batch_result-origins,
}
use sms_mno_gateway.Ports.Queues.{Delivery}
use sms_mno_gateway.Ports.Senders.{MnoSender, IsFaithful, IsFaithfulFactory}
use sms_mno_gateway.Rabbitmq.Publisher.{Link}
use sms_mno_gateway.Rabbitmq.Postings.{Posting}
use sms_mno_gateway.Service.Processor.{Processor}
use sms_mno_gateway.Service.Processor.Conserved.{IsCompletePool}
use sms_mno_gateway.Service.Settled.{gateway, Settled, delivery-Settled}
use sms_mno_gateway.Bootstrap.Batching.{Offer, offered, nothing, accumulate_batch}
use sms_mno_gateway.Bootstrap.Batching.Rounds.{BatchSettled, batch-BatchSettled}
use sms_mno_gateway.Base.{◌≢◌}
use sms_mno_gateway.Tests.Fixtures.{
  hello, parcel, routes, broker, broker-IsLog, fresh_link, three_retries,
}

abbrev World : Type 0
World = Link (List Posting)

abbrev accept_each : List Message → World → List SendResult × World
accept_each [] w = ([], w)
accept_each (m ∷ ms) w =
    let rest = accept_each ms w in (new_success_result m [] 0 0 ∷ rest.0, rest.1)

accept_each-AreResultsOf : (ms : List Message) (w : World) → AreResultsOf ms (accept_each ms w).0
accept_each-AreResultsOf [] w = tt
accept_each-AreResultsOf (m ∷ ms) w =
    (new_success_result-IsResultOf m [] 0 0, accept_each-AreResultsOf ms w)

abbrev quiet_sender : MnoSender World
quiet_sender = record {
  send = λ m w. (new_success_result m [] 0 0, w);
  send_batch = some accept_each;
  is_healthy = λ w. (true, w);
}

quiet_sender-IsFaithful : IsFaithful quiet_sender
quiet_sender-IsFaithful = record {
  sends = λ m w. new_success_result-IsResultOf m [] 0 0;
  sends_batch =
      λ f ms w e. rw (← ap (λ o. or_else o accept_each) e) (accept_each-AreResultsOf ms w);
}

abbrev sender_of : MnoSender World ⊎ Error → MnoSender World
sender_of (inl s) = s
sender_of (inr e) = quiet_sender

abbrev quiet_processor : Processor World
quiet_processor = record {
  router = record {
    get_sender = λ m. inl quiet_sender;
    get_sender_by_network = λ n. inl quiet_sender;
  };
  handle_batch_results = λ b w. (none, w);
  rate_limiter = record {
    wait = λ n w. (none, w);
    wait_retry = λ n w. (none, w);
    wait_n = λ n k w. (none, w);
    wait_retry_n = λ n k w. (none, w);
  };
  clock = λ w. (0, w);
  worker_count = 2;
  sdp_batch_size = 2;
  is_retry = false;
}

quiet-IsFaithful : IsFaithfulFactory quiet_processor.router
quiet-IsFaithful = record {
  by_message = λ m s e. rw (← ap sender_of e) quiet_sender-IsFaithful;
  by_network = λ n s e. rw (← ap sender_of e) quiet_sender-IsFaithful;
}

accepting_each : List Message → World → BatchResult × World
accepting_each ms w = let r = accept_each ms w in (add_results r.0 new_batch_result, r.1)

accepting_each-IsCompletePool :
    IsCompletePool (gateway broker routes three_retries quiet_processor) accepting_each
unfolding accepting_each
accepting_each-IsCompletePool ms w = (
  add_results-IsSorted (accept_each ms w).0 new_batch_result new_batch_result-IsSorted,
  (rw
      (
        new_batch_result-origins,
        append-nil,
        AreResultsOf-origins ms _ (accept_each-AreResultsOf ms w),
      )
      at (add_results-origins (accept_each ms w).0 new_batch_result)),
)

abbrev shop_delivery : Delivery World
shop_delivery = record {
  messages = hello ∷ parcel ∷ [];
  ack = λ w. (none, w);
  nack = λ requeue w. (none, w);
}

delivery-Settled_example :
    Settled broker routes three_retries
      (λ w. w)
      broker-IsLog
      accepting_each
      quiet_processor
      shop_delivery
      fresh_link
delivery-Settled_example =
    delivery-Settled broker routes three_retries (λ w. w) broker-IsLog accepting_each
      quiet_processor shop_delivery fresh_link accepting_each-IsCompletePool (omega arith)
      quiet-IsFaithful (λ e. cc e)

abbrev shop_offers : List (Offer World)
shop_offers = offered shop_delivery ∷ offered shop_delivery ∷ nothing ∷ []

batched : (accumulate_batch 3 shop_offers).msgs ≢ []
unfolding accumulate_batch
batched = λ e. cc e

batch-BatchSettled_example :
    BatchSettled broker routes three_retries
      (λ w. w)
      broker-IsLog
      accepting_each
      quiet_processor
      (accumulate_batch 3 shop_offers)
      fresh_link
batch-BatchSettled_example =
    batch-BatchSettled broker routes three_retries (λ w. w) broker-IsLog accepting_each
      quiet_processor 3 shop_offers fresh_link accepting_each-IsCompletePool (omega arith)
      quiet-IsFaithful batched
