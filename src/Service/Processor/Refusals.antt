-- ===== src/Service/Processor/Refusals.antt =====
-- The paths of processMessage of internal/sms/service/processor.go on which nothing is sent.
use sms_mno_gateway.Base.{false, none, some, inl, ◌≡◌, arith, int_suc}
use sms_mno_gateway.Domain.Errors.{Error, sentinel, rate_limited, circuit_open}
use sms_mno_gateway.Domain.Message.{
  Message, validate, clone, network, set_error, increment_retry_count,
}
use sms_mno_gateway.Domain.Result.{new_retryable_result, new_permanent_result, retryable, permanent}
use sms_mno_gateway.Ports.Senders.{MnoSender}
use sms_mno_gateway.Service.Processor.{Processor}
use sms_mno_gateway.Service.Processor.Single.{
  process_message, fail_since, rate_limit, send_if_healthy, send_by, send_unless_limited,
  send_unless_invalid, process_clone,
}

module _ {W : Type 0} (p : Processor W) (m : Message) (w : W) where
  -- A message that Validate refuses with an error gives a permanent result with that error, and the
  -- world has only been asked the time, twice: no token is taken and nothing is sent.
  pub process_message_invalid :
      (e : Error)
      → validate m ≡ some e
      → let (r, w') = process_message p m w in
        (r.outcome ≡ permanent) × (r.error ≡ some e) × (w' ≡ (p.clock (p.clock w).1).1)
  unfolding process_message clone process_clone send_unless_invalid fail_since new_permanent_result
  process_message_invalid e invalid = ground arith

  -- A valid message for which the limiter returns an error gives a retryable result with the error
  -- "rate limit exceeded" and one more retry, and the world has only been asked for the token and the
  -- time.
  pub process_message_limited :
      (e : Error)
      → validate m ≡ none
      → (rate_limit p (network m) (p.clock w).1).0 ≡ some e
      → let (r, w') = process_message p m w in
        (r.outcome ≡ retryable)
        × (r.error ≡ some (sentinel rate_limited))
        × (r.message.retry_count ≡ int_suc m.retry_count)
        × (w' ≡ (p.clock (rate_limit p (network m) (p.clock w).1).1).1)
  unfolding process_message clone process_clone send_unless_invalid send_unless_limited fail_since
      new_retryable_result set_error increment_retry_count
  process_message_limited e valid limited = ground arith

  -- A valid message within the rate limit whose sender is not healthy gives a retryable result with
  -- the error "circuit breaker is open", and the sender is not asked to send.
  pub process_message_unhealthy :
      (s : MnoSender W)
      → validate m ≡ none
      → (rate_limit p (network m) (p.clock w).1).0 ≡ none
      → p.router.get_sender m ≡ inl s
      → (s.is_healthy (rate_limit p (network m) (p.clock w).1).1).0 ≡ false
      → let (r, w') = process_message p m w in
        (r.outcome ≡ retryable)
        × (r.error ≡ some (sentinel circuit_open))
        × (r.message.retry_count ≡ int_suc m.retry_count)
        × (w' ≡ (p.clock (s.is_healthy (rate_limit p (network m) (p.clock w).1).1).1).1)
  unfolding process_message clone process_clone send_unless_invalid send_unless_limited send_by
      send_if_healthy fail_since new_retryable_result set_error increment_retry_count
  process_message_unhealthy s valid within chosen unhealthy = ground arith
