-- ===== src/Mno.antt =====
-- internal/sms/adapters/mno: what the senders share. Their HTTP client, the circuit breaker library
-- and the token cache are parameters.
pub mod Urls
pub mod Parameters
pub mod Smpp
pub mod Sdp
pub mod SdpBatch
pub mod Factory
pub mod Wiring
pub mod Configured
pub mod Faithful
pub mod SdpFaithful
pub mod Routes
pub mod Safety
pub mod AfricasTalking
use sms_mno_gateway.Base.{
  ℕ, ◌-◌, Bool, true, false, Option, none, some, Str, List, ◌⊎◌, inl, inr, ◌>>=◌, give,
}
use sms_mno_gateway.Domain.Errors.{Error, sentinel, circuit_open}
use sms_mno_gateway.Domain.Message.{Message}
use sms_mno_gateway.Domain.Result.{
  SendResult, is_success, new_retryable_result, new_permanent_result,
}

-- SDPSMSRecord; its channel is always "sms" and its package id 0.
pub record SdpSmsRecord : Type 0 where
  pub user_name : Str
  pub oa : Str
  pub msisdn : Str
  pub message : Str
  pub unique_id : Str
  pub action_response_url : Str

-- The bodies that the senders send, before they are encoded.
pub data Payload : Type 0 where
  no_body : Payload
  form : List (Str × Str) → Payload
  sdp_auth : Str → Str → Payload
  sdp_send : ℕ → List SdpSmsRecord → Payload

pub record HttpRequest : Type 0 where
  pub url : Str
  pub headers : List (Str × Str)
  pub body : Payload

-- `body` is what io.ReadAll has read, and `read_error` its error.
pub record HttpResponse : Type 0 where
  pub status_code : ℕ
  pub body : Str
  pub read_error : Option Error

-- `new_request` is the error of http.NewRequestWithContext for a URL, if it has one.
pub record HttpClient (W : Type 0) : Type 0 where
  pub new_request : Str → Option Error
  pub send_request : HttpRequest → W → (HttpResponse ⊎ Error) × W

-- gobreaker.CircuitBreaker. Execute is beforeRequest, which admits the request under a generation or
-- refuses it, the request, and afterRequest with whether it succeeded.
pub record CircuitBreaker (W : Type 0) : Type 0 where
  pub is_open : W → Bool × W
  pub before_request : W → (ℕ ⊎ Error) × W
  pub after_request : ℕ → Bool → W → W

module _ {W : Type 0} (clock : W → ℕ × W) where
  -- A failure made by `make`, with time.Since(start) for its latency.
  unfoldable pub failed_since :
      (Message → Error → ℕ → ℕ → SendResult) → Message → Error → ℕ → W → SendResult × W
  failed_since make m e start = do now ← clock; give (make m e (now - start) now)

  unfoldable pub run_admitted :
      CircuitBreaker W → (W → SendResult × W) → Message → ℕ → ℕ ⊎ Error → W → SendResult × W
  unfolding failed_since
  run_admitted cb request m start (inr e) w = failed_since new_retryable_result m e start w
  run_admitted cb request m start (inl generation) w =
      let r = request w in (r.0, cb.after_request generation (is_success r.0.outcome) r.1)

  -- circuitBreaker.Execute around a request, as Send uses it: a refusal is a retryable result.
  unfoldable pub execute :
      CircuitBreaker W → (W → SendResult × W) → Message → ℕ → W → SendResult × W
  unfolding run_admitted
  execute cb request m start = do
    admitted ← cb.before_request
    run_admitted cb request m start admitted

  unfoldable pub send_unless_open :
      CircuitBreaker W → (W → SendResult × W) → Message → ℕ → Bool → W → SendResult × W
  unfolding failed_since execute
  send_unless_open cb request m start true =
      failed_since new_permanent_result m (sentinel circuit_open) start
  send_unless_open cb request m start false = execute cb request m start

  -- Send of a sender with or without a circuit breaker, around its request.
  unfoldable pub send_guarded :
      Option (CircuitBreaker W) → (W → SendResult × W) → Message → ℕ → W → SendResult × W
  unfolding send_unless_open
  send_guarded none request m start = request
  send_guarded (some cb) request m start = do
    open_now ← cb.is_open
    send_unless_open cb request m start open_now

unfoldable pub is_healthy : {W : Type 0} → Option (CircuitBreaker W) → W → Bool × W
is_healthy none w = (true, w)
is_healthy (some cb) w = let r = cb.is_open w in (elim r.0 [ true ↦ false | false ↦ true ], r.1)
