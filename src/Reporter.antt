-- ===== src/Reporter.antt =====
-- internal/sms/adapters/httpapi/africas_talking_reporter.go: the reports of international results.
pub mod Accepted
use sms_mno_gateway.Base.{
  ℕ, ℤ, Bool, ◌&&◌, leb, ltb, if◌then◌else◌, Option, none, some, Str, codes, decimal, List, [], ◌∷◌,
  ◌++◌, ◌⊎◌, inl, inr,
}
use sms_mno_gateway.Domain.Errors.{Error, foreign, wrapped, error_text}
use sms_mno_gateway.Domain.Result.{SendResult, is_success}
use sms_mno_gateway.Mno.{HttpResponse}

-- sendResultPayload, which is sent as JSON with its empty texts left out.
pub record SendResultPayload : Type 0 where
  pub outbox_id : ℤ
  pub success : Bool
  pub message_id : Str
  pub status : Str
  pub network_code : Str
  pub msisdn : Str
  pub sender : Str

pub record ReportRequest : Type 0 where
  pub url : Str
  pub headers : List (Str × Str)
  pub body : SendResultPayload

-- `new_request` is the error of http.NewRequestWithContext for a URL, if it has one.
pub record AfricasTalkingReporter (W : Type 0) : Type 0 where
  pub url : Str
  pub token : Str
  pub new_request : Str → Option Error
  pub send_request : ReportRequest → W → (HttpResponse ⊎ Error) × W

failure_status : Option Error → Str → Str
failure_status (some e) network_code = error_text e
failure_status none network_code = network_code

unfoldable pub report_status : SendResult → Str
unfolding failure_status
report_status r =
    if is_success r.outcome then codes "Success" else failure_status r.error r.network_code

unfoldable pub result_payload : SendResult → SendResultPayload
unfolding report_status
result_payload r = record {
  outbox_id = r.message.outbox_id;
  success = is_success r.outcome;
  message_id = if is_success r.outcome then r.external_message_id else [];
  status = report_status r;
  network_code = r.network_code;
  msisdn = r.message.msisdn;
  sender = r.message.sender;
}

unfoldable pub is_ok_status : ℕ → Bool
is_ok_status code = leb 200 code && ltb code 300

unfoldable pub judge_report : HttpResponse ⊎ Error → Option Error
unfolding is_ok_status
judge_report (inr e) = some (wrapped (codes "send-result request failed: " ++ error_text e) e)
judge_report (inl response) =
    if is_ok_status response.status_code
    then none
    else some
        (foreign (codes "send-result callback returned status " ++ decimal response.status_code))

module _ {W : Type 0} (t : AfricasTalkingReporter W) where
  unfoldable pub report_request : SendResult → ReportRequest
  unfolding result_payload
  report_request r = record {
    url = t.url;
    headers =
        (codes "Content-Type", codes "application/json")
        ∷ (codes "X-AT-Consumer-Token", t.token)
        ∷ [];
    body = result_payload r;
  }

  unfoldable pub send_report : Option Error → SendResult → W → Option Error × W
  unfolding report_request judge_report
  send_report (some e) r w =
      (some (wrapped (codes "create send-result request: " ++ error_text e) e), w)
  send_report none r w =
      let sent = t.send_request (report_request r) w in (judge_report sent.0, sent.1)

  unfoldable pub report : SendResult → W → Option Error × W
  unfolding send_report
  report r = send_report (t.new_request t.url) r
