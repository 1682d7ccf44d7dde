-- ===== src/Mno/Smpp.antt =====
-- BaseSMPPSender of internal/sms/adapters/mno/base.go, which the senders of airtel.go, telkom.go,
-- equitel.go, cm.go and safaricom_smpp.go embed.
use sms_mno_gateway.Base.{
  ℕ, ◌-◌, Bool, ◌&&◌, ltb, leb, if◌then◌else◌, Option, none, some, Str, codes, [], ◌⊎◌, inl, inr,
  ◌>>=◌, give, contains,
}
use sms_mno_gateway.Domain.Network.{Network}
use sms_mno_gateway.Domain.Errors.{Error, sentinel, mno, mno_unavailable, mno_is_retryable}
use sms_mno_gateway.Domain.Message.{Message}
use sms_mno_gateway.Domain.Result.{
  SendResult, new_success_result, new_retryable_result, new_permanent_result,
}
use sms_mno_gateway.Ports.Senders.{MnoSender}
use sms_mno_gateway.Mno.{
  HttpClient, HttpRequest, HttpResponse, no_body, CircuitBreaker, failed_since, send_guarded,
  is_healthy,
}
use sms_mno_gateway.Mno.Urls.{SmppUrls, build_request_url}

pub record BaseSmppSender (W : Type 0) : Type 0 where
  pub network : Network
  pub urls : SmppUrls
  pub http_client : HttpClient W
  pub circuit_breaker : Option (CircuitBreaker W)
  pub clock : W → ℕ × W

unfoldable pub is_2xx : ℕ → Bool
is_2xx status = leb 200 status && ltb status 300

-- The result of a response that has been read.
unfoldable pub judge_smpp : Network → Message → ℕ → Str → ℕ → ℕ → SendResult
unfolding is_2xx
judge_smpp n m status response latency now =
    if is_2xx status && contains response (codes "0: Accepted for delivery")
    then new_success_result m response latency now
    else if mno_is_retryable status none
    then new_retryable_result m (mno n status response) latency now
    else new_permanent_result m (mno n status response) latency now

unfoldable pub smpp_request : Str → HttpRequest
smpp_request url = record { url = url; headers = []; body = no_body }

module _ {W : Type 0} (s : BaseSmppSender W) where
  unfoldable pub read_smpp : HttpResponse ⊎ Error → Message → ℕ → W → SendResult × W
  unfolding judge_smpp failed_since
  read_smpp (inr e) m start =
      failed_since s.clock new_retryable_result m (sentinel mno_unavailable) start
  read_smpp (inl response) m start = elim response.read_error [
    | some e ↦ failed_since s.clock new_retryable_result m e start
    | none ↦ do
      now ← s.clock
      give (judge_smpp s.network m response.status_code response.body (now - start) now)
  ]

  unfoldable pub execute_request : Message → Str → ℕ → W → SendResult × W
  unfolding read_smpp
  execute_request m url start = elim (s.http_client.new_request url) [
    | some e ↦ failed_since s.clock new_permanent_result m e start
    | none ↦ do response ← s.http_client.send_request (smpp_request url); read_smpp response m start
  ]

  unfoldable pub send_smpp : Message → W → SendResult × W
  unfolding execute_request send_guarded
  send_smpp m = do
    start ← s.clock
    send_guarded s.clock s.circuit_breaker (execute_request m (build_request_url s.urls m) start) m
        start

  unfoldable pub smpp_sender : MnoSender W
  smpp_sender = record {
    send = send_smpp;
    send_batch = none;
    is_healthy = is_healthy s.circuit_breaker;
  }
