-- ===== src/Service/Processor/Batch.antt =====
-- processSdpBatch, processBatch, ProcessDelivery and ProcessMessages of
-- internal/sms/service/processor.go. The worker pool (processRegular) is the argument `regular`:
-- which of its runs happens is up to the scheduler of the Go runtime.
use sms_mno_gateway.Base.{
  ℕ, Bool, true, not, ◌&&◌, if◌then◌else◌, Option, none, some, List, [], ◌∷◌, ◌++◌, keep, is_empty,
  leb, length, inl, inr, ◌⊎◌, ◌>>=◌, give,
}
use sms_mno_gateway.Domain.Network.{safaricom, is_safaricom}
use sms_mno_gateway.Domain.Errors.{Error, sentinel, rate_limited}
use sms_mno_gateway.Domain.Message.{Message, network, is_transactional}
use sms_mno_gateway.Domain.Result.{
  SendResult, BatchResult, new_batch_result, add_results, new_retryable_result,
}
use sms_mno_gateway.Ports.Queues.{Delivery}
use sms_mno_gateway.Ports.Senders.{MnoSender}
use sms_mno_gateway.Service.Processor.{Processor}
use sms_mno_gateway.Service.Processor.Grouping.{group_by_sender, chunks}

abbrev pub BatchSend : Type 0 → Type 0
BatchSend W = List Message → W → List SendResult × W

abbrev pub Regular : Type 0 → Type 0
Regular W = List Message → W → BatchResult × W

-- `msg.Network() == NetworkSafaricom && !msg.IsTransactional()`.
unfoldable pub is_sdp_promo : Message → Bool
is_sdp_promo m = is_safaricom (network m) && not (is_transactional m)

-- Retryable results with no latency, for every message of a list.
unfoldable pub all_failed : Error → ℕ → List Message → List SendResult
all_failed e now [] = []
all_failed e now (m ∷ ms) = new_retryable_result m e 0 now ∷ all_failed e now ms

module _ {W : Type 0} (p : Processor W) where
  -- The tokens of a chunk, one for each message.
  unfoldable pub rate_limit_n : ℕ → W → Option Error × W
  rate_limit_n n =
      if p.is_retry
      then p.rate_limiter.wait_retry_n safaricom n
      else p.rate_limiter.wait_n safaricom n

  unfoldable pub send_chunk : BatchSend W → List Message → Option Error → W → List SendResult × W
  send_chunk send chunk (some e) = do
    now ← p.clock
    give (all_failed (sentinel rate_limited) now chunk)
  send_chunk send chunk none = send chunk

  unfoldable pub process_chunk : BatchSend W → List Message → W → List SendResult × W
  unfolding send_chunk
  process_chunk send chunk = do limited ← rate_limit_n (length chunk); send_chunk send chunk limited

  unfoldable pub process_chunks :
      BatchSend W → List (List Message) → BatchResult → W → BatchResult × W
  process_chunks send [] b = give b
  process_chunks send (chunk ∷ rest) b = do
    results ← process_chunk send chunk
    process_chunks send rest (add_results results b)

  unfoldable pub process_groups :
      BatchSend W → List (List Message) → BatchResult → W → BatchResult × W
  process_groups send [] b = give b
  process_groups send (group ∷ rest) b = do
    b' ← process_chunks send (chunks p.sdp_batch_size group) b
    process_groups send rest b'

  unfoldable pub process_sdp_batch : BatchSend W → List Message → BatchResult → W → BatchResult × W
  process_sdp_batch send ms = process_groups send (group_by_sender ms)

  -- The SDP part of processBatch: the result so far, and the messages that fall back to the pool.
  unfoldable pub sdp_part :
      MnoSender W ⊎ Error → List Message → BatchResult → W → (BatchResult × List Message) × W
  sdp_part (inr e) promo b w =
      let now = p.clock w in ((add_results (all_failed e now.0 promo) b, []), now.1)
  sdp_part (inl s) promo b w = elim s.send_batch [
    | none ↦ ((b, promo), w)
    | some send ↦ let r = process_sdp_batch send promo b w in ((r.0, []), r.1)
  ]

  unfoldable pub sdp_unless_empty :
      List Message → BatchResult → W → (BatchResult × List Message) × W
  unfolding sdp_part
  sdp_unless_empty promo b =
      if is_empty promo
      then give (b, [])
      else sdp_part (p.router.get_sender_by_network safaricom) promo b

  module _ (regular : Regular W) where
    unfoldable pub regular_unless_empty : List Message → BatchResult → W → BatchResult × W
    regular_unless_empty ms b = if is_empty ms then give b else do
      r ← regular ms
      give (add_results r.failed (add_results r.retryables (add_results r.successful b)))

    unfoldable pub split_batch : List Message → W → BatchResult × W
    unfolding sdp_unless_empty regular_unless_empty
    split_batch ms = do
      sdp ← sdp_unless_empty (keep is_sdp_promo ms) new_batch_result
      regular_unless_empty (keep (λ m. not (is_sdp_promo m)) ms ++ sdp.1) sdp.0

    unfoldable pub process_batch : List Message → W → BatchResult × W
    unfolding split_batch
    process_batch ms = if leb p.sdp_batch_size 1 then regular ms else split_batch ms

    unfoldable pub process_messages : List Message → W → (BatchResult × Option Error) × W
    process_messages ms w =
        if is_empty ms
        then ((new_batch_result, none), w)
        else let b = process_batch ms w in
          let r = p.handle_batch_results b.0 b.1 in ((b.0, r.0), r.1)

    unfoldable pub answer : Delivery W → Option Error → W → Option Error × W
    answer d none = d.ack
    answer d (some e) = d.nack true

    unfoldable pub process_delivery : Delivery W → W → Option Error × W
    unfolding answer
    process_delivery d =
        if is_empty d.messages
        then d.ack
        else do b ← process_batch d.messages; failed ← p.handle_batch_results b; answer d failed
