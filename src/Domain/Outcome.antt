-- ===== src/Domain/Outcome.antt =====
-- What a result says of the message that it is the result of, whoever made it
-- (internal/sms/domain/result.go).
use sms_mno_gateway.Base.{ℕ, if◌then◌else◌, is_none, pos, List, [], ◌∷◌, int_suc, ◌≡◌, refl, Str}
use sms_mno_gateway.Domain.Errors.{Error}
use sms_mno_gateway.Domain.Message.{
  Message, set_status, set_error, increment_retry_count, status_sent, status_failed,
}
use sms_mno_gateway.Domain.Result.{
  SendResult, is_success, is_retryable, new_success_result, new_retryable_result,
  new_permanent_result,
}

-- A message without the fields that record its sending.
unfoldable pub origin : Message → Message
origin m = record m {
  status = [];
  description = [];
  retry_count = pos 0;
  last_error = [];
  processed_at = 0;
}

-- The result is about the message: only the record of its sending has changed, a retryable result
-- has counted one retry and no other has, the status says whether it was sent, and there is an error
-- exactly if it was not.
pub record IsResultOf (m : Message) (r : SendResult) : Type 0 where
  pub same : origin r.message ≡ origin m
  pub counted :
      r.message.retry_count
      ≡ (if is_retryable r.outcome then int_suc m.retry_count else m.retry_count)
  pub status : r.message.status ≡ (if is_success r.outcome then status_sent else status_failed)
  pub error : is_none r.error ≡ is_success r.outcome

pub new_success_result-IsResultOf :
    (m : Message) (response : Str) (latency now : ℕ)
    → IsResultOf m (new_success_result m response latency now)
unfolding new_success_result set_status origin is_retryable is_success
new_success_result-IsResultOf m response latency now = record {
  same = refl;
  counted = refl;
  status = refl;
  error = refl;
}

pub new_retryable_result-IsResultOf :
    (m : Message) (e : Error) (latency now : ℕ)
    → IsResultOf m (new_retryable_result m e latency now)
unfolding new_retryable_result set_error increment_retry_count origin is_retryable is_success
new_retryable_result-IsResultOf m e latency now = record {
  same = refl;
  counted = refl;
  status = refl;
  error = refl;
}

pub new_permanent_result-IsResultOf :
    (m : Message) (e : Error) (latency now : ℕ)
    → IsResultOf m (new_permanent_result m e latency now)
unfolding new_permanent_result set_error origin is_retryable is_success
new_permanent_result-IsResultOf m e latency now = record {
  same = refl;
  counted = refl;
  status = refl;
  error = refl;
}

-- One result for each message, in order.
abbrev pub AreResultsOf : List Message → List SendResult → Type 0
AreResultsOf [] [] = Unit
AreResultsOf [] (r ∷ rs) = ⊥
AreResultsOf (m ∷ ms) [] = ⊥
AreResultsOf (m ∷ ms) (r ∷ rs) = IsResultOf m r × AreResultsOf ms rs
