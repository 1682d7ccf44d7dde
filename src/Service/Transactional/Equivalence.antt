-- ===== src/Service/Transactional/Equivalence.antt =====
-- processMessage of internal/sms/service/transactional_handler.go against processMessage of
-- processor.go.
use sms_mno_gateway.Base.{ℕ, false, inl, ◌≡◌, arith}
use sms_mno_gateway.Domain.Message.{Message, validate, network, normalize_msisdn, clone}
use sms_mno_gateway.Domain.Outcome.{IsResultOf}
use sms_mno_gateway.Ports.Senders.{MnoSender, IsFaithfulFactory}
use sms_mno_gateway.Service.Processor.{Processor}
use sms_mno_gateway.Service.Processor.Single.{
  process_message, fail_since, rate_limit, send_if_healthy, send_by, send_unless_limited,
  send_unless_invalid, process_clone,
}
use sms_mno_gateway.Service.Processor.Checked.{process_message-IsResultOf}
use sms_mno_gateway.Service.Transactional.{
  TransactionalHandler, send, send_valid, send_normalized, process_transactional,
}

module _ {W : Type 0} (h : TransactionalHandler W) where
  -- The processor for the main queues with the same parts.
  abbrev pub as_processor : Processor W
  as_processor = record {
    router = h.router;
    handle_batch_results = h.handle_batch_results;
    rate_limiter = h.rate_limiter;
    clock = h.clock;
    worker_count = h.worker_count;
    sdp_batch_size = 1;
    is_retry = false;
  }

  send-processor :
      (s : MnoSender W) (m : Message) (start : ℕ) (w : W)
      → send h s m start w ≡ send_by as_processor (inl s) m start w
  unfolding send send_by send_if_healthy fail_since
  send-processor s m start w = ground arith

  send_valid-processor :
      (m : Message) (start : ℕ) (w : W)
      → send_valid h m start w
        ≡ send_unless_limited as_processor
            (rate_limit as_processor (network m) w).0
            m
            start
            (rate_limit as_processor (network m) w).1
  unfolding send_valid send_unless_limited send_by fail_since rate_limit
  send_valid-processor m start w = grind (arith, send-processor)

  send_normalized-processor :
      (m : Message) (start : ℕ) (w : W)
      → send_normalized h m start w ≡ send_unless_invalid as_processor (validate m) m start w
  unfolding send_normalized send_unless_invalid fail_since
  send_normalized-processor m start w = ground (arith, send_valid-processor m start w)

  -- The fast path treats a message as the processor of the main queues treats the message with its
  -- number normalised: the same result, and the same calls of the clock, the limiter and the sender.
  pub process_transactional-processor :
      (m : Message) (w : W)
      → process_transactional h m w
        ≡ process_message as_processor (record m { msisdn = normalize_msisdn m }) w
  unfolding process_transactional process_message process_clone clone
  process_transactional-processor m w =
      send_normalized-processor (record m { msisdn = normalize_msisdn m }) (h.clock w).0
        (h.clock w).1

  pub process_transactional-IsResultOf :
      (m : Message) (w : W)
      → IsFaithfulFactory h.router
      → IsResultOf (record m { msisdn = normalize_msisdn m }) (process_transactional h m w).0
  process_transactional-IsResultOf m w faithful = rw (process_transactional-processor m w) (
      process_message-IsResultOf as_processor faithful (record m { msisdn = normalize_msisdn m }) w)
