-- ===== src/Service/Processor.antt =====
-- internal/sms/service/processor.go and router.go. Router passes its calls on to the factory and
-- writes to the log; logs and metrics are left out.
pub mod Single
pub mod Checked
pub mod Refusals
pub mod Grouping
pub mod Chunks
pub mod Groups
pub mod Batch
pub mod Conserved
pub mod Pool
use sms_mno_gateway.Base.{
  ℕ, ℤ, pos, Bool, true, false, if◌then◌else◌, Option, none, some, List, [], ◌∷◌, ltb_ℤ, leb_ℤ,
  pos_part, leb,
}
use sms_mno_gateway.Domain.Errors.{Error}
use sms_mno_gateway.Domain.Message.{Message}
use sms_mno_gateway.Domain.Result.{SendResult, BatchResult}
use sms_mno_gateway.Ports.Queues.{Delivery}
use sms_mno_gateway.Ports.Senders.{MnoSenderFactory, Limiter}

-- `handle_batch_results` is the ResultHandler's; `clock` is time.Now.
pub record Processor (W : Type 0) : Type 0 where
  pub router : MnoSenderFactory W
  pub handle_batch_results : BatchResult → W → Option Error × W
  pub rate_limiter : Limiter W
  pub clock : W → ℕ × W
  pub worker_count : ℕ
  pub sdp_batch_size : ℕ
  pub is_retry : Bool

-- The defaults of NewProcessor, after which both numbers are positive.
unfoldable pub default_worker_count : ℤ → ℕ
default_worker_count n = if leb_ℤ n (pos 0) then 10 else pos_part n

unfoldable pub default_batch_size : ℤ → ℕ
default_batch_size n = if ltb_ℤ n (pos 1) then 1 else pos_part n

unfoldable pub new_processor :
    {W : Type 0}
    → MnoSenderFactory W
    → (BatchResult → W → Option Error × W)
    → Limiter W
    → (W → ℕ × W)
    → ℤ
    → ℤ
    → Bool
    → Processor W
unfolding default_worker_count default_batch_size
new_processor router handle limiter clock worker_count sdp_batch_size is_retry = record {
  router = router;
  handle_batch_results = handle;
  rate_limiter = limiter;
  clock = clock;
  worker_count = default_worker_count worker_count;
  sdp_batch_size = default_batch_size sdp_batch_size;
  is_retry = is_retry;
}
