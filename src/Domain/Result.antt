-- ===== src/Domain/Result.antt =====
-- internal/sms/domain/result.go, and ClassifyError of errors.go.
use sms_mno_gateway.Base.{
  ℕ, suc, Bool, true, false, if◌then◌else◌, Option, none, some, Str, List, [], ◌∷◌, ◌++◌,
}
use sms_mno_gateway.Domain.Errors.{Error, is_retryable_error}
use sms_mno_gateway.Domain.Message.{
  Message, set_status, set_error, increment_retry_count, status_sent,
}

pub data ResultType : Type 0 where
  success retryable permanent : ResultType

pub ResultType-discrete : Discrete ResultType
ResultType-discrete = hlevel

-- `outcome` is the field Type.
pub record SendResult : Type 0 where
  pub message : Message
  pub outcome : ResultType
  pub error : Option Error
  pub mno_response : Str
  pub latency : ℕ
  pub timestamp : ℕ
  pub external_message_id : Str
  pub network_code : Str

unfoldable pub new_success_result : Message → Str → ℕ → ℕ → SendResult
new_success_result m response latency now = record {
  message = set_status status_sent now m;
  outcome = success;
  error = none;
  mno_response = response;
  latency = latency;
  timestamp = now;
  external_message_id = [];
  network_code = [];
}

unfoldable pub new_retryable_result : Message → Error → ℕ → ℕ → SendResult
new_retryable_result m e latency now = record {
  message = increment_retry_count (set_error e m);
  outcome = retryable;
  error = some e;
  mno_response = [];
  latency = latency;
  timestamp = now;
  external_message_id = [];
  network_code = [];
}

unfoldable pub new_permanent_result : Message → Error → ℕ → ℕ → SendResult
new_permanent_result m e latency now = record {
  message = set_error e m;
  outcome = permanent;
  error = some e;
  mno_response = [];
  latency = latency;
  timestamp = now;
  external_message_id = [];
  network_code = [];
}

unfoldable pub is_success : ResultType → Bool
is_success success = true
is_success _ = false

unfoldable pub is_retryable : ResultType → Bool
is_retryable retryable = true
is_retryable _ = false

unfoldable pub is_permanent : ResultType → Bool
is_permanent permanent = true
is_permanent _ = false

unfoldable pub classify_error : Option Error → ResultType
classify_error none = success
classify_error (some e) = if is_retryable_error (some e) then retryable else permanent

-- ProcessTime only goes to the log and is left out.
pub record BatchResult : Type 0 where
  pub successful : List SendResult
  pub retryables : List SendResult
  pub failed : List SendResult
  pub total_count : ℕ

unfoldable pub new_batch_result : BatchResult
new_batch_result = record { successful = []; retryables = []; failed = []; total_count = 0 }

unfoldable pub place : ResultType → SendResult → BatchResult → BatchResult
place success r b = record b { successful = b.successful ++ r ∷ [] }
place retryable r b = record b { retryables = b.retryables ++ r ∷ [] }
place permanent r b = record b { failed = b.failed ++ r ∷ [] }

unfoldable pub add_result : SendResult → BatchResult → BatchResult
unfolding place
add_result r b = place r.outcome r (record b { total_count = suc b.total_count })

-- `for _, r := range rs { b.AddResult(r) }`.
unfoldable pub add_results : List SendResult → BatchResult → BatchResult
add_results [] b = b
add_results (r ∷ rs) b = add_results rs (add_result r b)
