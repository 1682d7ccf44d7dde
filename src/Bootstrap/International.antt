-- ===== src/Bootstrap/International.antt =====
-- The pipeline of international messages that New of internal/bootstrap/app.go sets up: the
-- constructors NewAfricasTalkingSender, NewAfricasTalkingReporter and NewAfricasTalkingProcessor.
use sms_mno_gateway.Base.{ℕ, ℤ, pos, pos_part, Option, some, Str, List, ◌⊎◌, ◌≡◌, refl}
use sms_mno_gateway.Domain.Network.{intnl}
use sms_mno_gateway.Domain.Errors.{Error}
use sms_mno_gateway.Domain.Message.{Message, clone}
use sms_mno_gateway.Config.Types.{Config}
use sms_mno_gateway.Common.Breakers.{BreakerRegistry, breaker_of}
use sms_mno_gateway.Mno.{HttpClient, HttpResponse}
use sms_mno_gateway.Mno.AfricasTalking.{AfricasTalkingSender, AtRecipient, send_at}
use sms_mno_gateway.Reporter.{AfricasTalkingReporter, ReportRequest, report}
use sms_mno_gateway.Reporter.Accepted.{IsAccepted, acked-IsAccepted}
use sms_mno_gateway.Service.AfricasTalking.{
  AfricasTalkingProcessor, outcome_ack, process_international,
}
use sms_mno_gateway.Service.Scheduler.{positive_or}

-- What the parts take from the libraries and from the other parts: see their records.
pub record InternationalParts (W : Type 0) : Type 0 where
  pub http_client : HttpClient W
  pub send_report : ReportRequest → W → (HttpResponse ⊎ Error) × W
  pub breaker_registry : BreakerRegistry W
  pub recipients : Str → Option (List AtRecipient)
  pub clock : W → ℕ × W
  pub depleted_until : W → Option ℕ
  pub set_depleted : ℕ → W → W
  pub wait : W → Option Error × W
  pub publish : Str → Message → W → Option Error × W
  pub pause : ℤ → W → Option Error × W
  pub context_error : W → Option Error

module _ {W : Type 0} (cfg : Config) (parts : InternationalParts W) where
  unfoldable pub new_africas_talking_sender : AfricasTalkingSender W
  unfolding positive_or breaker_of
  new_africas_talking_sender = record {
    sandbox_url = cfg.africas_talking.sandbox_url;
    production_url = cfg.africas_talking.production_url;
    mode = cfg.africas_talking.mode;
    api_key = cfg.africas_talking.api_key;
    api_key_prod = cfg.africas_talking.api_key_prod;
    username = cfg.africas_talking.username;
    http_client = parts.http_client;
    circuit_breaker = breaker_of parts.breaker_registry intnl;
    balance_cooldown =
        pos_part (positive_or (pos 300000000000) cfg.africas_talking.balance_cooldown);
    recipients = parts.recipients;
    clock = parts.clock;
    depleted_until = parts.depleted_until;
    set_depleted = parts.set_depleted;
  }

  unfoldable pub new_africas_talking_reporter : AfricasTalkingReporter W
  new_africas_talking_reporter = record {
    url = cfg.africas_talking.send_result_url;
    token = cfg.africas_talking.internal_token;
    new_request = parts.http_client.new_request;
    send_request = parts.send_report;
  }

  unfoldable pub new_africas_talking_processor : AfricasTalkingProcessor W
  unfolding positive_or new_africas_talking_sender new_africas_talking_reporter
  new_africas_talking_processor = record {
    send = send_at new_africas_talking_sender;
    report = report new_africas_talking_reporter;
    wait = some parts.wait;
    publish = some parts.publish;
    save_to_db_queue = cfg.queues.save_to_db_queue;
    dead_letter_queue = cfg.queues.dead_letter_queue;
    max_report_retries = pos_part (positive_or (pos 5) cfg.africas_talking.max_report_retries);
    report_retry_base_delay =
        pos_part (positive_or (pos 2000000000) cfg.africas_talking.report_retry_base_delay);
    report_retry_max_delay =
        pos_part (positive_or (pos 60000000000) cfg.africas_talking.report_retry_max_delay);
    pause = parts.pause;
    context_error = parts.context_error;
  }

  -- The pipeline that the configuration describes acknowledges a message only after it has been sent
  -- by the Africa's Talking sender and the API has answered the report of that send with a status
  -- from 200 to 299, which is the last thing done, whatever the configuration says.
  pub international_acked :
      (m : Message) (w : W)
      → (process_international new_africas_talking_processor m w).0 ≡ outcome_ack
      → (sent_in v : W) × IsAccepted new_africas_talking_reporter
          (send_at new_africas_talking_sender (clone m) sent_in).0
          v
          (process_international new_africas_talking_processor m w).1
  unfolding new_africas_talking_processor
  international_acked m w h =
      acked-IsAccepted new_africas_talking_reporter new_africas_talking_processor m w refl h
