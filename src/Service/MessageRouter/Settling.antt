-- ===== src/Service/MessageRouter/Settling.antt =====
-- How RouteDelivery of internal/sms/service/message_router.go answers a delivery.
use sms_mno_gateway.Base.{
  true, false, not, ◌||◌, Option, some, Str, List, [], ◌∷◌, keep, keep_all, is_empty-false, ◌≡◌,
  ◌≢◌, refl,
}
use sms_mno_gateway.Domain.Errors.{Error}
use sms_mno_gateway.Domain.Message.{Message, is_transactional}
use sms_mno_gateway.Domain.Result.{BatchResult}
use sms_mno_gateway.Ports.Queues.{Delivery}
use sms_mno_gateway.Service.Transactional.{TransactionalHandler, Counts}
use sms_mno_gateway.Service.Transactional.Workers.{BatchState, gathered}
use sms_mno_gateway.Service.Transactional.Batches.{process_transactional_batch, finish_batch}
use sms_mno_gateway.Service.MessageRouter.{
  MessageRouter, RouterCounts, route_transactional, route_promotional, settle, route_messages,
  route_delivery,
}

module _ {W : Type 0} (r : MessageRouter (Counts × W)) (h : TransactionalHandler W)
    (work : List Message → Counts → W → BatchState W) where
  by_handler :
      (ms : List Message) (x : Counts × W)
      → r.transactional_handler ≡ some (process_transactional_batch h work)
      → route_transactional r ms x ≡ (false, (process_transactional_batch h work ms x).1)
  unfolding route_transactional process_transactional_batch
  by_handler [] x handler = refl
  by_handler (m ∷ ms) x handler = rw (handler, route_transactional) refl

  by_scheduler :
      (queue : Str) (ms : List Message) (x : Counts × W)
      (process : List Message → Str → Counts × W → (BatchResult × Option Error) × (Counts × W))
      (e : Error)
      → r.scheduler ≡ some process
      → ms ≢ []
      → (process ms queue x).0.1 ≡ some e
      → route_promotional r queue ms x ≡ (true, (process ms queue x).1)
  unfolding route_promotional
  by_scheduler queue [] x process e scheduler some_message failing = absurd (some_message refl)
  by_scheduler queue (m ∷ ms) x process e scheduler some_message failing =
      rw (scheduler, route_promotional) (rw failing refl)

  answered :
      (d : Delivery (Counts × W)) (queue : Str) (n : RouterCounts) (x : Counts × W)
      → d.messages ≢ []
      → let first = route_transactional r (keep is_transactional d.messages) x in
        let second =
          route_promotional r queue (keep (λ m. not (is_transactional m)) d.messages) first.1 in
        let answer = settle r d (first.0 || second.0) second.1 in
        let (e, (n', w')) = route_delivery r d queue n x in (e ≡ answer.0) × (w' ≡ answer.1)
  unfolding route_delivery route_messages
  answered d queue n x some_message = rw (is_empty-false d.messages some_message) (refl, refl)

  -- A delivery of transactional messages only, to a router with a transactional handler, is
  -- acknowledged in the world that the handling of their results leaves, whether or not that handling
  -- returned an error.
  pub transactional_acked :
      (d : Delivery (Counts × W)) (queue : Str) (n : RouterCounts) (c : Counts) (w : W)
      → r.transactional_handler ≡ some (process_transactional_batch h work)
      → d.messages ≢ []
      → keep (λ m. not (is_transactional m)) d.messages ≡ []
      → let s = work d.messages c w in
        let answer = d.ack (s.counts, (h.handle_batch_results (gathered s) s.world).1) in
        let (e, (n', w')) = route_delivery r d queue n (c, w) in (e ≡ answer.0) × (w' ≡ answer.1)
  unfolding route_promotional settle process_transactional_batch finish_batch
  transactional_acked d queue n c w handler some_message none_other =
      rw
        (
          none_other,
          keep_all is_transactional d.messages none_other,
          by_handler d.messages (c, w) handler,
          is_empty-false d.messages some_message,
        )
        at (answered d queue n (c, w) some_message)

  -- A delivery with promotional messages, to a router with a transactional handler and a scheduler,
  -- is requeued whole when the scheduler returns an error, in a world in which the handler has
  -- already processed the transactional messages of the delivery.
  pub promotional_requeued :
      (d : Delivery (Counts × W)) (queue : Str) (n : RouterCounts) (c : Counts) (w : W)
      (process : List Message → Str → Counts × W → (BatchResult × Option Error) × (Counts × W))
      (e : Error)
      → r.transactional_handler ≡ some (process_transactional_batch h work)
      → r.scheduler ≡ some process
      → keep (λ m. not (is_transactional m)) d.messages ≢ []
      → let sent =
          (process_transactional_batch h work (keep is_transactional d.messages) (c, w)).1 in
        let failed = process (keep (λ m. not (is_transactional m)) d.messages) queue sent in
        failed.0.1 ≡ some e
        → let (e', (n', w')) = route_delivery r d queue n (c, w) in
          (e' ≡ (d.nack true failed.1).0) × (w' ≡ (d.nack true failed.1).1)
  unfolding settle keep
  promotional_requeued d queue n c w process e handler scheduler some_other failing =
      rw
        (
          by_handler (keep is_transactional d.messages) (c, w) handler,
          by_scheduler queue (keep (λ m. not (is_transactional m)) d.messages) _ process e scheduler
              some_other failing,
        )
        at (answered d queue n (c, w) (λ none_there. some_other (rw (none_there, keep) refl)))
