-- ===== src/Service/ResultHandler.antt =====
-- internal/sms/service/result_handler.go.
pub mod Sweep
pub mod Retries
pub mod Kept
use sms_mno_gateway.Base.{
  ℤ, Bool, true, false, not, if◌then◌else◌, Option, none, some, List, [], ◌∷◌, ◌++◌, leb_ℤ,
}
use sms_mno_gateway.Domain.Errors.{Error, sentinel, max_retries_exceeded}
use sms_mno_gateway.Domain.Message.{Message, is_transactional, set_error}
use sms_mno_gateway.Domain.Result.{
  SendResult, BatchResult, ResultType, success, retryable, permanent,
}
use sms_mno_gateway.Ports.Queues.{
  QueuePublisher, GetInt, ns_retry, field_max_retries_transactional, field_max_retries_promotional,
}

-- The fields of ResultHandler that decide. The dynamic limits are those cached when a batch is
-- handled.
pub record RetryLimits : Type 0 where
  pub max_retries_transactional : ℤ
  pub max_retries_promotional : ℤ
  pub dyn_config : Option GetInt

limit_of : Option GetInt → RetryLimits → Bool → ℤ
limit_of none h true = h.max_retries_transactional
limit_of none h false = h.max_retries_promotional
limit_of (some get_int) h true =
    get_int ns_retry field_max_retries_transactional h.max_retries_transactional
limit_of (some get_int) h false =
    get_int ns_retry field_max_retries_promotional h.max_retries_promotional

unfoldable pub max_retries : RetryLimits → Message → ℤ
unfolding limit_of
max_retries h m = limit_of h.dyn_config h (is_transactional m)

-- `result.Message.RetryCount >= limit`.
unfoldable pub is_exhausted : RetryLimits → SendResult → Bool
is_exhausted h r = leb_ℤ (max_retries h r.message) r.message.retry_count

unfoldable pub give_up : SendResult → SendResult
give_up r = record r {
  message = set_error (sentinel max_retries_exceeded) r.message;
  outcome = permanent;
}

-- The loop of HandleBatchResults, which goes from the last retryable result to the first: what it
-- leaves in Retryable, and Failed.
unfoldable pub sweep :
    RetryLimits → List SendResult → List SendResult → List SendResult × List SendResult
sweep h [] failed = ([], failed)
sweep h (r ∷ rs) failed =
    let later = sweep h rs failed in
    if is_exhausted h r then (later.0, later.1 ++ give_up r ∷ []) else (r ∷ later.0, later.1)

unfoldable pub swept : RetryLimits → BatchResult → BatchResult
swept h b = let s = sweep h b.retryables b.failed in record b { retryables = s.0; failed = s.1 }

decide : RetryLimits → ResultType → SendResult → SendResult
decide h success r = r
decide h retryable r = if is_exhausted h r then give_up r else r
decide h permanent r = r

module _ {W : Type 0} (publisher : QueuePublisher W) (h : RetryLimits) where
  unfoldable pub handle_result : SendResult → W → Option Error × W
  unfolding decide
  handle_result r = publisher.publish_result (decide h r.outcome r)

  unfoldable pub handle_batch_results : BatchResult → W → Option Error × W
  handle_batch_results b = publisher.publish_batch_results (swept h b)
