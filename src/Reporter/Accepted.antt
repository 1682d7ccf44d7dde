-- ===== src/Reporter/Accepted.antt =====
-- What an acknowledgement of internal/sms/service/africas_talking_processor.go means when its results
-- are reported by internal/sms/adapters/httpapi/africas_talking_reporter.go.
use sms_mno_gateway.Base.{
  true, Option, none, some, ◌≡◌, refl, sym, ◌∙◌, ap, ◌⊎◌, inl, inr, Bool-cases,
}
use sms_mno_gateway.Domain.Errors.{Error}
use sms_mno_gateway.Domain.Message.{Message, clone}
use sms_mno_gateway.Domain.Result.{SendResult}
use sms_mno_gateway.Mno.{HttpResponse}
use sms_mno_gateway.Service.AfricasTalking.{
  AfricasTalkingProcessor, outcome_ack, process_international,
}
use sms_mno_gateway.Service.AfricasTalking.Reported.{Delivered, acked-Delivered}
use sms_mno_gateway.Reporter.{
  AfricasTalkingReporter, is_ok_status, judge_report, report_request, send_report, report,
}

module _ {W : Type 0} (t : AfricasTalkingReporter W) where
  -- The result went out in a world, and was answered with a status from 200 to 299 in the next one.
  pub record IsAccepted (r : SendResult) (v w : W) : Type 0 where
    pub response : HttpResponse
    pub answer : t.send_request (report_request t r) v ≡ (inl response, w)
    pub ok : is_ok_status response.status_code ≡ true

  judge_report-ok :
      (a : HttpResponse ⊎ Error)
      → judge_report a ≡ none
      → (response : HttpResponse) × (a ≡ inl response) × (is_ok_status response.status_code ≡ true)
  unfolding judge_report
  judge_report-ok (inr e) h = absurd (cc h)
  judge_report-ok (inl response) h = elim (Bool-cases (is_ok_status response.status_code)) [
    | inl ok ↦ (response, refl, ok)
    | inr refused ↦ absurd (cc (rw (refused, judge_report) at h))
  ]

  send_report-IsAccepted :
      (failed : Option Error) (r : SendResult) (w : W)
      → (send_report t failed r w).0 ≡ none
      → IsAccepted r w (send_report t failed r w).1
  unfolding send_report
  send_report-IsAccepted (some e) r w h = absurd (cc h)
  send_report-IsAccepted none r w h =
      let sent = t.send_request (report_request t r) w in
      let (response, same, ok) = judge_report-ok sent.0 h in
      record { response = response; answer = ap (λ a. (a, sent.1)) same; ok = ok }

  -- A processor that reports by this reporter acknowledges a message only after it has sent the
  -- message and has posted the result of that send to the API, which answered with a status from 200
  -- to 299. Nothing is done after this post.
  pub acked-IsAccepted :
      (p : AfricasTalkingProcessor W) (m : Message) (w : W)
      → p.report ≡ report t
      → (process_international p m w).0 ≡ outcome_ack
      → (sent_in v : W) × IsAccepted (p.send (clone m) sent_in).0 v (process_international p m w).1
  unfolding report Delivered
  acked-IsAccepted p m w same h =
      let (sent_in, reported) = acked-Delivered p m w h in
      let r = (p.send (clone m) sent_in).0 in
      let v = reported.before in
      let reporting = ap (λ f. f r v) same in
      let posted =
        send_report-IsAccepted (t.new_request t.url) r v
          (sym (ap (λ x. x.0) reporting) ∙ reported.no_error) in
      (
        sent_in,
        v,
        record {
          response = posted.response;
          answer =
              posted.answer
              ∙ ap (λ u. (inl posted.response, u))
                  (sym (ap (λ x. x.1) reporting) ∙ sym reported.last);
          ok = posted.ok;
        },
      )
