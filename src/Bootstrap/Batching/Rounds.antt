-- ===== src/Bootstrap/Batching/Rounds.antt =====
-- A round of the SDP batching processors of internal/bootstrap/app.go, to the acknowledgement of the
-- deliveries.
use mathlib.Core.List.Perm
use sms_mno_gateway.Base.{
  ℕ, suc, ◌<◌, true, List, [], ◌∷◌, ◌++◌, map, ◌≡◌, ◌≢◌, ◌⊎◌, inl, inr, refl, Perm, is_empty-false,
  Option-cases,
}
use sms_mno_gateway.Domain.Result.{BatchResult}
use sms_mno_gateway.Domain.Outcome.{origin}
use sms_mno_gateway.Domain.Batch.{IsSorted, origins}
use sms_mno_gateway.Ports.Queues.{Delivery}
use sms_mno_gateway.Ports.Senders.{IsFaithfulFactory}
use sms_mno_gateway.Rabbitmq.Publisher.{Amqp, Link}
use sms_mno_gateway.Rabbitmq.Postings.{Posting, IsLog, expected}
use sms_mno_gateway.Rabbitmq.Results.{Routes, publish_batch_results, publisher}
use sms_mno_gateway.Rabbitmq.Routing.{publish_batch_results_routes}
use sms_mno_gateway.Service.Processor.{Processor}
use sms_mno_gateway.Service.Processor.Batch.{Regular, process_batch, process_messages}
use sms_mno_gateway.Service.Processor.Conserved.{IsCompletePool, process_batch_complete}
use sms_mno_gateway.Service.ResultHandler.{RetryLimits, swept, handle_batch_results}
use sms_mno_gateway.Service.ResultHandler.Kept.{swept-IsSorted, swept-origins}
use sms_mno_gateway.Service.Settled.{gateway}
use sms_mno_gateway.Bootstrap.Batching.{
  Offer, offered, nothing, Accumulated, drain_more, accumulate_batch, nack_all, ack_all,
  settle_batch, process_accumulated, batching_worker,
}
use sms_mno_gateway.Bootstrap.Batching.Batches.{messages_of, accumulate_batch-whole}

module _ {W : Type 0} (amqp : Amqp W) (c : Routes) (h : RetryLimits) (log : W → List Posting)
    (law : IsLog amqp log) where
  -- What becomes of a batch at the world `l`.
  pub record BatchSettled (regular : Regular (Link W)) (p : Processor (Link W))
      (a : Accumulated (Link W)) (l : Link W) : Type 0 where
    pub result : BatchResult
    pub sorted : IsSorted result
    pub one_each : Perm (origins result) (map origin (messages_of a.batch))
    pub after : Link W
    pub settled :
        (process_accumulated (gateway amqp c h p) regular a l ≡ nack_all a.batch after)
        ⊎ ((process_accumulated (gateway amqp c h p) regular a l ≡ ack_all a.batch after)
            × Perm (log after.world) (
                log (process_batch (gateway amqp c h p) regular a.msgs l).1.world
                ++ expected c result))

  -- A batch of at least one message that accumulateBatch returns, for a processor with this result
  -- handler and publisher, with SDP batches of at least one message, senders whose results are about
  -- their messages and a worker pool that answers each message: there is a sorted result with exactly
  -- one result for each message of each delivery of the batch, and either every delivery is requeued,
  -- or every one is acknowledged, after the broker has got, besides what it had after the sending,
  -- exactly what the publisher promises for that result.
  pub batch-BatchSettled :
      (regular : Regular (Link W)) (p : Processor (Link W)) (batch_size : ℕ)
      (offers : List (Offer (Link W))) (l : Link W)
      → IsCompletePool (gateway amqp c h p) regular
      → 0 < p.sdp_batch_size
      → IsFaithfulFactory p.router
      → (accumulate_batch batch_size offers).msgs ≢ []
      → BatchSettled regular p (accumulate_batch batch_size offers) l
  unfolding process_accumulated process_messages gateway handle_batch_results publisher settle_batch
  batch-BatchSettled regular p batch_size offers l pool size faithful some_message =
      let a = accumulate_batch batch_size offers in
      let b = process_batch (gateway amqp c h p) regular a.msgs l in
      let complete =
        process_batch_complete (gateway amqp c h p) regular pool a.msgs l size faithful in
      let published = publish_batch_results amqp c (swept h b.0) b.1 in
      record {
        result = swept h b.0;
        sorted = swept-IsSorted h b.0 complete.0;
        one_each =
            rw (← accumulate_batch-whole batch_size offers)
              (Perm.trans (swept-origins h b.0 complete.0) complete.1);
        after = published.1;
        settled = elim (Option-cases published.0) [
          | inl ok ↦ inr (
            (rw (is_empty-false a.msgs some_message, ok) refl),
            publish_batch_results_routes amqp c log law (swept h b.0) b.1 ok,
          )
          | inr (e, failed) ↦ inl (rw (is_empty-false a.msgs some_message, failed) refl)
        ];
      }

module _ {W : Type 0} (p : Processor W) (regular : Regular W) where
  -- A delivery without messages, with no further delivery waiting, makes a batching processor of a
  -- queue return for good, in any round, without an answer to the delivery: nothing has changed.
  pub empty_delivery_stops :
      (batch_size rounds : ℕ) (d : Delivery W) (rest : List (Offer W)) (w : W)
      → d.messages ≡ []
      → batching_worker p regular batch_size (suc rounds) (offered d ∷ nothing ∷ rest) w ≡ (true, w)
  unfolding batching_worker accumulate_batch drain_more
  empty_delivery_stops batch_size rounds d rest w empty = rw empty refl
