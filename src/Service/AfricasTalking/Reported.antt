-- ===== src/Service/AfricasTalking/Reported.antt =====
-- What an acknowledgement of internal/sms/service/africas_talking_processor.go means.
use sms_mno_gateway.Base.{
  pos, leb_ℤ, Option, none, some, ◌≡◌, refl, ◌∙◌, Option-cases, Bool-cases, inl, inr, give,
}
use sms_mno_gateway.Domain.Errors.{Error}
use sms_mno_gateway.Domain.Message.{Message, validate, clone}
use sms_mno_gateway.Domain.Result.{SendResult}
use sms_mno_gateway.Service.AfricasTalking.{
  AfricasTalkingProcessor, MessageOutcome, outcome_ack, retry_step, finalize_exhausted, finalized,
  save_result, report_result, after_send, send_and_settle, wait_token, send_unless_waiting,
  process_checked, process_international,
}
use sms_mno_gateway.Service.AfricasTalking.Once.{retry_in_process-none}

module _ {W : Type 0} (p : AfricasTalkingProcessor W) where
  finalize_exhausted-unacked :
      (m : Message) (w : W) → ¬ ((finalize_exhausted p m w).0 ≡ outcome_ack)
  unfolding finalize_exhausted
  finalize_exhausted-unacked m w h = elim (Option-cases (p.context_error w)) [
    | inl live ↦ cc (rw (live, finalize_exhausted) at h)
    | inr (e, ended) ↦ cc (rw (ended, finalize_exhausted) at h)
  ]

  finalized-acked :
      (failed : Option Error) (m : Message) (k : W → MessageOutcome × W) (w : W)
      → (finalized p failed m k w).0 ≡ outcome_ack
      → (failed ≡ none) × ((k w).0 ≡ outcome_ack) × ((finalized p failed m k w).1 ≡ (k w).1)
  unfolding finalized
  finalized-acked none m k w h = (refl, h, refl)
  finalized-acked (some e) m k w h = absurd (finalize_exhausted-unacked m w h)

  -- The result of the message was reported without an error, in the world that is left.
  pub record Reported (r : SendResult) (w : W) : Type 0 where
    pub before : W
    pub no_error : (p.report r before).0 ≡ none
    pub last : w ≡ (p.report r before).1

  report_result-Reported :
      (r : SendResult) (w : W)
      → (report_result p r w).0 ≡ outcome_ack
      → Reported r (report_result p r w).1
  unfolding report_result retry_step
  report_result-Reported r w h =
      let reported = retry_step p (p.report r) w in
      let (fine, acked, same) =
        finalized-acked reported.0 r.message (give outcome_ack) reported.1 h in
      let (v, ok, last) = retry_in_process-none p (p.report r) p.max_report_retries 1 w fine in
      record { before = v; no_error = ok; last = same ∙ last }

  after_send-Reported :
      (r : SendResult) (w : W)
      → (after_send p r w).0 ≡ outcome_ack
      → Reported r (after_send p r w).1
  unfolding after_send
  after_send-Reported r w h =
      let saved = save_result p r w in
      let (fine, acked, same) = finalized-acked saved.0 r.message (report_result p r) saved.1 h in
      rw same (report_result-Reported r saved.1 acked)

  -- A message that was sent, with its result reported in the world that is left.
  unfoldable pub Delivered : Message → W → Type 0
  Delivered m w = (v : W) × Reported (p.send m v).0 w

  send_unless_waiting-Delivered :
      (limited : Option Error) (m : Message) (w : W)
      → (send_unless_waiting p limited m w).0 ≡ outcome_ack
      → Delivered m (send_unless_waiting p limited m w).1
  unfolding send_unless_waiting send_and_settle Delivered
  send_unless_waiting-Delivered (some e) m w h = absurd (cc h)
  send_unless_waiting-Delivered none m w h =
      (w, after_send-Reported (p.send m w).0 (p.send m w).1 h)

  process_checked-Delivered :
      (m : Message) (w : W)
      → (process_checked p m w).0 ≡ outcome_ack
      → Delivered m (process_checked p m w).1
  unfolding process_checked
  process_checked-Delivered m w h = elim (Option-cases (validate m)) [
    | inr (e, invalid) ↦ absurd (cc (rw (invalid, process_checked) at h))
    | inl valid ↦ elim (Bool-cases (leb_ℤ m.outbox_id (pos 0))) [
      | inl lost ↦ absurd (cc (rw (valid, lost, process_checked) at h))
      | inr known ↦
          let limited = wait_token p w in
          rw (valid, known, process_checked)
            (send_unless_waiting-Delivered limited.0 m limited.1
              (rw (valid, known, process_checked) at h))
    ]
  ]

  -- A message that is acknowledged was sent, and the report of the result of that send ended without
  -- an error as the last thing that was done.
  pub acked-Delivered :
      (m : Message) (w : W)
      → (process_international p m w).0 ≡ outcome_ack
      → Delivered (clone m) (process_international p m w).1
  unfolding process_international
  acked-Delivered m w h = process_checked-Delivered (clone m) w h
