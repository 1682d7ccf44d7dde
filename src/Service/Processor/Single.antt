-- ===== src/Service/Processor/Single.antt =====
-- processMessage of internal/sms/service/processor.go.
use sms_mno_gateway.Base.{
  ℕ, ◌-◌, Bool, true, false, if◌then◌else◌, Option, none, some, ◌>>=◌, give, inl, inr, ◌⊎◌,
}
use sms_mno_gateway.Domain.Network.{Network}
use sms_mno_gateway.Domain.Errors.{Error, sentinel, rate_limited, circuit_open}
use sms_mno_gateway.Domain.Message.{Message, validate, clone, network}
use sms_mno_gateway.Domain.Result.{SendResult, new_retryable_result, new_permanent_result}
use sms_mno_gateway.Ports.Senders.{MnoSender}
use sms_mno_gateway.Service.Processor.{Processor}

module _ {W : Type 0} (p : Processor W) where
  -- A failure made by `make`, with time.Since(start) for its latency.
  unfoldable pub fail_since :
      (Message → Error → ℕ → ℕ → SendResult) → Message → Error → ℕ → W → SendResult × W
  fail_since make m e start = do now ← p.clock; give (make m e (now - start) now)

  -- Retry processors draw on the reserved retry budget.
  unfoldable pub rate_limit : Network → W → Option Error × W
  rate_limit n = if p.is_retry then p.rate_limiter.wait_retry n else p.rate_limiter.wait n

  unfoldable pub send_if_healthy : MnoSender W → Message → ℕ → Bool → W → SendResult × W
  send_if_healthy s m start true = s.send m
  send_if_healthy s m start false = fail_since new_retryable_result m (sentinel circuit_open) start

  unfoldable pub send_by : MnoSender W ⊎ Error → Message → ℕ → W → SendResult × W
  unfolding send_if_healthy
  send_by (inr e) m start = fail_since new_permanent_result m e start
  send_by (inl s) m start = do healthy ← s.is_healthy; send_if_healthy s m start healthy

  unfoldable pub send_unless_limited : Option Error → Message → ℕ → W → SendResult × W
  unfolding send_by
  send_unless_limited (some e) m start =
      fail_since new_retryable_result m (sentinel rate_limited) start
  send_unless_limited none m start = send_by (p.router.get_sender m) m start

  unfoldable pub send_unless_invalid : Option Error → Message → ℕ → W → SendResult × W
  unfolding send_unless_limited
  send_unless_invalid (some e) m start = fail_since new_permanent_result m e start
  send_unless_invalid none m start = do
    limited ← rate_limit (network m)
    send_unless_limited limited m start

  unfoldable pub process_clone : Message → W → SendResult × W
  unfolding send_unless_invalid
  process_clone m = do start ← p.clock; send_unless_invalid (validate m) m start

  unfoldable pub process_message : Message → W → SendResult × W
  unfolding process_clone
  process_message m = process_clone (clone m)
