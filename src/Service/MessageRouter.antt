-- ===== src/Service/MessageRouter.antt =====
-- internal/sms/service/message_router.go.
pub mod Settling
use sms_mno_gateway.Base.{
  ℕ, ◌+◌, ◌%◌, ◌^◌, Bool, true, false, not, ◌||◌, if◌then◌else◌, Option, none, some, Str, List,
  keep, is_empty, is_none, length,
}
use sms_mno_gateway.Domain.Errors.{Error}
use sms_mno_gateway.Domain.Message.{Message, is_transactional}
use sms_mno_gateway.Domain.Result.{BatchResult}
use sms_mno_gateway.Ports.Queues.{Delivery}

-- The parts of the router that may be nil are options: ProcessBatch of the transactional handler,
-- and ProcessMessages of the scheduler and of the processor.
pub record MessageRouter (W : Type 0) : Type 0 where
  pub transactional_handler : Option (List Message → W → BatchResult × W)
  pub scheduler : Option (List Message → Str → W → (BatchResult × Option Error) × W)
  pub processor : Option (List Message → W → (BatchResult × Option Error) × W)

-- The counters are uint64.
pub record RouterCounts : Type 0 where
  pub transactional : ℕ
  pub promotional : ℕ

unfoldable pub count_routed : ℕ → ℕ → RouterCounts → RouterCounts
count_routed t p n = record {
  transactional = (n.transactional + t) % 2 ^ 64;
  promotional = (n.promotional + p) % 2 ^ 64;
}

module _ {W : Type 0} (r : MessageRouter W) where
  -- The first component tells whether processing failed.
  unfoldable pub by_processor : List Message → W → Bool × W
  by_processor ms w = elim r.processor [
    | none ↦ (false, w)
    | some process ↦ let b = process ms w in (not (is_none b.0.1), b.1)
  ]

  unfoldable pub route_transactional : List Message → W → Bool × W
  unfolding by_processor
  route_transactional ms w = if is_empty ms then (false, w) else elim r.transactional_handler [
    | none ↦ by_processor ms w
    | some process_batch ↦ (false, (process_batch ms w).1)
  ]

  unfoldable pub route_promotional : Str → List Message → W → Bool × W
  unfolding by_processor
  route_promotional queue ms w = if is_empty ms then (false, w) else elim r.scheduler [
    | none ↦ by_processor ms w
    | some process ↦ let b = process ms queue w in (not (is_none b.0.1), b.1)
  ]

  unfoldable pub settle : Delivery W → Bool → W → Option Error × W
  settle d true = d.nack true
  settle d false = d.ack

  unfoldable pub route_messages :
      Delivery W → Str → RouterCounts → W → Option Error × (RouterCounts × W)
  unfolding settle
  route_messages d queue n w =
      let transactional = keep is_transactional d.messages in
      let promotional = keep (λ m. not (is_transactional m)) d.messages in
      let first = route_transactional transactional w in
      let second = route_promotional queue promotional first.1 in
      let settled = settle d (first.0 || second.0) second.1 in
      (settled.0, (count_routed (length transactional) (length promotional) n, settled.1))

  unfoldable pub route_delivery :
      Delivery W → Str → RouterCounts → W → Option Error × (RouterCounts × W)
  unfolding route_messages
  route_delivery d queue n w =
      if is_empty d.messages
      then (let acked = d.ack w in (acked.0, (n, acked.1)))
      else route_messages d queue n w
