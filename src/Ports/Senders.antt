-- ===== src/Ports/Senders.antt =====
-- internal/sms/ports/mno_sender.go, and the rate limiter as its callers see it.
use sms_mno_gateway.Base.{ℕ, Bool, Option, some, List, ◌⊎◌, inl, ◌≡◌}
use sms_mno_gateway.Domain.Outcome.{IsResultOf, AreResultsOf}
use sms_mno_gateway.Domain.Network.{Network}
use sms_mno_gateway.Domain.Errors.{Error}
use sms_mno_gateway.Domain.Message.{Message}
use sms_mno_gateway.Domain.Result.{SendResult}

-- `batch` is the optional capability BatchSender, found by a type assertion.
pub record MnoSender (W : Type 0) : Type 0 where
  pub send : Message → W → SendResult × W
  pub send_batch : Option (List Message → W → List SendResult × W)
  pub is_healthy : W → Bool × W

pub record MnoSenderFactory (W : Type 0) : Type 0 where
  pub get_sender : Message → MnoSender W ⊎ Error
  pub get_sender_by_network : Network → MnoSender W ⊎ Error

-- ratelimit.Limiter as its callers see it: waiting for one or for several tokens of the budget of
-- the main queues or of the retry queues.
pub record Limiter (W : Type 0) : Type 0 where
  pub wait : Network → W → Option Error × W
  pub wait_retry : Network → W → Option Error × W
  pub wait_n : Network → ℕ → W → Option Error × W
  pub wait_retry_n : Network → ℕ → W → Option Error × W

-- What its callers rely on: a sender's results are about the messages that it was given.
pub record IsFaithful {W : Type 0} (s : MnoSender W) : Type 0 where
  pub sends : (m : Message) (w : W) → IsResultOf m (s.send m w).0
  pub sends_batch :
      (f : List Message → W → List SendResult × W) (ms : List Message) (w : W)
      → s.send_batch ≡ some f
      → AreResultsOf ms (f ms w).0

pub record IsFaithfulFactory {W : Type 0} (f : MnoSenderFactory W) : Type 0 where
  pub by_message : (m : Message) (s : MnoSender W) → f.get_sender m ≡ inl s → IsFaithful s
  pub by_network :
      (n : Network) (s : MnoSender W) → f.get_sender_by_network n ≡ inl s → IsFaithful s
