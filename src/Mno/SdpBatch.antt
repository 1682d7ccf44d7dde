-- ===== src/Mno/SdpBatch.antt =====
-- SendBatch of internal/sms/adapters/mno/safaricom_sdp.go.
use sms_mno_gateway.Base.{
  ℕ, suc, ◌-◌, Bool, true, false, ◌||◌, ◌==◌, if◌then◌else◌, Option, none, some, Str, codes,
  decimal, List, [], ◌∷◌, ◌++◌, str_eq, ◌⊎◌, inl, inr, ◌>>=◌, give,
}
use sms_mno_gateway.Domain.Network.{safaricom}
use sms_mno_gateway.Domain.Errors.{
  Error, sentinel, mno, foreign, mno_unavailable, token_expired, token_fetch_fail, circuit_open,
  mno_is_retryable,
}
use sms_mno_gateway.Domain.Message.{Message}
use sms_mno_gateway.Domain.Result.{
  SendResult, new_success_result, new_retryable_result, new_permanent_result,
}
use sms_mno_gateway.Ports.Senders.{MnoSender}
use sms_mno_gateway.Mno.{HttpResponse, CircuitBreaker, is_healthy}
use sms_mno_gateway.Mno.Smpp.{is_2xx}
use sms_mno_gateway.Mno.Sdp.{SafaricomSdpSender, get_token, sdp_request, execute_send, send_sdp}

-- The same result for every message: allRetryable, allPermanent, and the results of a success.
unfoldable pub all_results : (Message → SendResult) → List Message → List SendResult
all_results make [] = []
all_results make (m ∷ ms) = make m ∷ all_results make ms

-- The first message whose sender differs, from the index `i` on.
unfoldable pub mixed_sender : Str → ℕ → List Message → Option (Str × ℕ)
mixed_sender first i [] = none
mixed_sender first i (m ∷ ms) =
    if str_eq m.sender first then mixed_sender first (suc i) ms else some (m.sender, i)

-- The text of the error, whose verb %q quotes the senders; a sender needs no escapes.
unfoldable pub mixed_error : Str → Str × ℕ → Error
mixed_error first (other, i) = foreign (
    codes "SDP batch contains mixed senders: \""
    ++ (first
        ++ (codes "\" (index 0) vs \""
            ++ (other
                ++ (codes "\" (index "
                    ++ (decimal i ++ codes ") — each DataSet must use a single oa value"))))))

module _ {W : Type 0} (s : SafaricomSdpSender W) where
  unfoldable pub all_failed_since :
      (Message → Error → ℕ → ℕ → SendResult) → List Message → Error → ℕ → W → List SendResult × W
  all_failed_since make ms e start = do
    now ← s.clock
    give (all_results (λ m. make m e (now - start) now) ms)

  -- The fallback: each message in a request of its own.
  unfoldable pub send_each : List Message → W → List SendResult × W
  unfolding execute_send
  send_each [] = give []
  send_each (m ∷ ms) = do
    start ← s.clock
    r ← execute_send s m start
    rest ← send_each ms
    give (r ∷ rest)

  unfoldable pub judge_batch : List Message → ℕ → Str → ℕ → ℕ → W → List SendResult × W
  unfolding send_each all_results
  judge_batch ms status text latency now =
      if is_2xx status
      then give (all_results (λ m. new_success_result m text latency now) ms)
      else if status == 401 || status == 404
      then (λ w. (
        all_results (λ m. new_retryable_result m (sentinel token_expired) latency now) ms,
        (s.token_cache.delete s.token_key w).1,
      ))
      else if mno_is_retryable status none
      then give
          (all_results (λ m. new_retryable_result m (mno safaricom status text) latency now) ms)
      else send_each ms

  unfoldable pub read_batch : HttpResponse ⊎ Error → List Message → ℕ → W → List SendResult × W
  unfolding judge_batch all_failed_since
  read_batch (inr e) ms start =
      all_failed_since new_retryable_result ms (sentinel mno_unavailable) start
  read_batch (inl response) ms start = do
    now ← s.clock
    judge_batch ms response.status_code response.body (now - start) now

  unfoldable pub batch_with_token : Str ⊎ Error → List Message → ℕ → W → List SendResult × W
  unfolding read_batch
  batch_with_token (inr e) ms start =
      all_failed_since new_retryable_result ms (sentinel token_fetch_fail) start
  batch_with_token (inl token) ms start = do
    stamp ← s.clock
    elim (s.http_client.new_request s.send_url) [
      | some e ↦ all_failed_since new_permanent_result ms e start
      | none ↦ do
        response ← s.http_client.send_request (sdp_request s token stamp ms)
        read_batch response ms start
    ]

  unfoldable pub breaker_open : Option (CircuitBreaker W) → W → Bool × W
  breaker_open none = give false
  breaker_open (some cb) = cb.is_open

  unfoldable pub batch_unless_open : Bool → List Message → ℕ → W → List SendResult × W
  unfolding batch_with_token
  batch_unless_open true ms start =
      all_failed_since new_retryable_result ms (sentinel circuit_open) start
  batch_unless_open false ms start = do token ← get_token s; batch_with_token token ms start

  unfoldable pub batch_of : Message → List Message → ℕ → W → List SendResult × W
  unfolding batch_unless_open breaker_open
  batch_of m ms start = elim (mixed_sender m.sender 1 ms) [
    | some other ↦ all_failed_since new_permanent_result (m ∷ ms) (mixed_error m.sender other) start
    | none ↦ do open_now ← breaker_open s.circuit_breaker; batch_unless_open open_now (m ∷ ms) start
  ]

  unfoldable pub send_batch : List Message → W → List SendResult × W
  unfolding batch_of
  send_batch [] = do start ← s.clock; give []
  send_batch (m ∷ ms) = do start ← s.clock; batch_of m ms start

  unfoldable pub sdp_sender : MnoSender W
  sdp_sender = record {
    send = send_sdp s;
    send_batch = some send_batch;
    is_healthy = is_healthy s.circuit_breaker;
  }
