-- ===== src/Service/Settled.antt =====
-- A delivery from the queue to its acknowledgement: ProcessDelivery of
-- internal/sms/service/processor.go with the ResultHandler and the RabbitMQ publisher.
use mathlib.Core.List.Perm
use sms_mno_gateway.Base.{
  ◌<◌, true, not, keep, reverse, ap, List, [], ◌++◌, map, Option, none, some, ◌≡◌, ◌≢◌, ◌⊎◌, inl,
  inr, refl, Perm, is_empty-false, Option-cases,
}
use sms_mno_gateway.Domain.Errors.{Error}
use sms_mno_gateway.Domain.Result.{BatchResult}
use sms_mno_gateway.Domain.Outcome.{origin}
use sms_mno_gateway.Domain.Batch.{IsSorted, origins}
use sms_mno_gateway.Ports.Queues.{Delivery}
use sms_mno_gateway.Ports.Senders.{IsFaithfulFactory}
use sms_mno_gateway.Rabbitmq.Publisher.{Amqp, Link}
use sms_mno_gateway.Rabbitmq.Postings.{Posting, IsLog, expected}
use sms_mno_gateway.Rabbitmq.Results.{Routes, publish_batch_results, publisher}
use sms_mno_gateway.Rabbitmq.Routing.{publish_batch_results_routes}
use sms_mno_gateway.Service.Processor.{Processor}
use sms_mno_gateway.Service.Processor.Batch.{Regular, process_batch, process_delivery, answer}
use sms_mno_gateway.Service.Processor.Conserved.{IsCompletePool, process_batch_complete}
use sms_mno_gateway.Service.ResultHandler.{
  RetryLimits, is_exhausted, give_up, swept, handle_batch_results,
}
use sms_mno_gateway.Service.ResultHandler.Sweep.{sweep_lem}
use sms_mno_gateway.Service.ResultHandler.Kept.{swept-IsSorted, swept-origins}

module _ {W : Type 0} (amqp : Amqp W) (c : Routes) (h : RetryLimits) where
  -- The processor with its result handler.
  unfoldable pub gateway : Processor (Link W) → Processor (Link W)
  gateway p = record p { handle_batch_results = handle_batch_results (publisher amqp c) h }

  module _ (log : W → List Posting) (law : IsLog amqp log) where
    -- What becomes of the messages of a delivery at the world `l`: there is a sorted batch result with
    -- one result for each, which is that of the processing but for the retryable results that have
    -- reached their limit, which have joined the failures. Its publishing decides: the delivery is
    -- requeued after an error, or it is acknowledged in a world whose log has, behind what the sending
    -- left there, all that the publisher promises for that result.
    pub record Settled (regular : Regular (Link W)) (p : Processor (Link W)) (d : Delivery (Link W))
        (l : Link W) : Type 0 where
      pub result : BatchResult
      pub sorted : IsSorted result
      pub successes :
          result.successful ≡ (process_batch (gateway p) regular d.messages l).0.successful
      pub retried :
          result.retryables
          ≡ keep
              (λ r. not (is_exhausted h r))
              (process_batch (gateway p) regular d.messages l).0.retryables
      pub failures :
          result.failed
          ≡ (process_batch (gateway p) regular d.messages l).0.failed
            ++ map give_up (
                reverse (
                  keep
                    (is_exhausted h)
                    (process_batch (gateway p) regular d.messages l).0.retryables))
      pub one_each : Perm (origins result) (map origin d.messages)
      pub published : Option Error
      pub after : Link W
      pub publishing :
          publish_batch_results amqp c result (process_batch (gateway p) regular d.messages l).1
          ≡ (published, after)
      pub settled :
          ((e : Error) × (published ≡ some e)
            × (process_delivery (gateway p) regular d l ≡ d.nack true after))
          ⊎ ((published ≡ none)
              × (process_delivery (gateway p) regular d l ≡ d.ack after)
              × Perm (log after.world) (
                  log (process_batch (gateway p) regular d.messages l).1.world
                  ++ expected c result))

    -- A delivery of at least one message, to a processor with this result handler and publisher, with
    -- SDP batches of at least one message, senders whose results are about their messages and a worker
    -- pool that answers each message: there is a sorted batch result with exactly one result for each
    -- message of the delivery, whose successes are those of the processing, whose retryable results are
    -- those of the processing that are under their retry limit, and whose failures are those of the
    -- processing and behind them, last first and marked as exceeding the limit, the retryable results
    -- that are not. If publishing that result fails, ProcessDelivery requeues the delivery; otherwise
    -- it acknowledges it, in a world where the broker has got, besides what it had after the sending,
    -- exactly what the publisher promises for the result.
    pub delivery-Settled :
        (regular : Regular (Link W)) (p : Processor (Link W)) (d : Delivery (Link W)) (l : Link W)
        → IsCompletePool (gateway p) regular
        → 0 < p.sdp_batch_size
        → IsFaithfulFactory p.router
        → d.messages ≢ []
        → Settled regular p d l
    unfolding process_delivery gateway swept handle_batch_results publisher answer
    delivery-Settled regular p d l pool size faithful some_message =
        let b = process_batch (gateway p) regular d.messages l in
        let complete = process_batch_complete (gateway p) regular pool d.messages l size faithful in
        let published = publish_batch_results amqp c (swept h b.0) b.1 in
        record {
          result = swept h b.0;
          successes = refl;
          retried = ap (λ s. s.0) (sweep_lem h b.0.retryables b.0.failed);
          failures = ap (λ s. s.1) (sweep_lem h b.0.retryables b.0.failed);
          sorted = swept-IsSorted h b.0 complete.0;
          one_each = Perm.trans (swept-origins h b.0 complete.0) complete.1;
          published = published.0;
          after = published.1;
          publishing = refl;
          settled = elim (Option-cases published.0) [
            | inl ok ↦ inr (
              ok,
              (rw (is_empty-false d.messages some_message, ok) refl),
              publish_batch_results_routes amqp c log law (swept h b.0) b.1 ok,
            )
            | inr (e, failed) ↦
                inl (e, failed, (rw (is_empty-false d.messages some_message, failed) refl))
          ];
        }
