-- ===== src/Service/AfricasTalking/Once.antt =====
-- How often internal/sms/service/africas_talking_processor.go sends a message and calls the steps
-- behind the send.
use sms_mno_gateway.Base.{
  ℕ, zero, suc, ◌≤◌, ℤ, pos, leb_ℤ, ◌||◌, Option, none, some, Str, is_empty, give, ◌≡◌, refl, ◌∙◌,
  arith, Option-cases, Bool-cases, inl, inr,
}
use sms_mno_gateway.Domain.Errors.{Error}
use sms_mno_gateway.Domain.Message.{Message, validate, clone}
use sms_mno_gateway.Domain.Result.{SendResult, is_success, is_permanent}
use sms_mno_gateway.Service.AfricasTalking.{
  AfricasTalkingProcessor, MessageOutcome, outcome_ack, retry_in_process, retry_step, retry_backoff,
  dead_letter, finalize_exhausted, finalized, save_result, report_result, after_send,
  send_and_settle, wait_token, send_unless_waiting, process_checked, process_international,
}

-- A count of the sends: a send is counted once, and the other parts do not send.
pub record IsSendCount {W : Type 0} (p : AfricasTalkingProcessor W) (sends : W → ℕ) : Type 0 where
  pub sending : (m : Message) (w : W) → sends (p.send m w).1 ≡ suc (sends w)
  pub reporting : (r : SendResult) (w : W) → sends (p.report r w).1 ≡ sends w
  pub waiting : (f : W → Option Error × W) (w : W) → p.wait ≡ some f → sends (f w).1 ≡ sends w
  pub publishing :
      (f : Str → Message → W → Option Error × W) (queue : Str) (m : Message) (w : W)
      → p.publish ≡ some f
      → sends (f queue m w).1 ≡ sends w
  pub pausing : (t : ℤ) (w : W) → sends (p.pause t w).1 ≡ sends w

module _ {W : Type 0} (p : AfricasTalkingProcessor W) where
  -- A step that ends well does so in its last call.
  pub retry_in_process-none :
      (step : W → Option Error × W) (left attempt : ℕ) (w : W)
      → (retry_in_process p step left attempt w).0 ≡ none
      → (v : W) × ((step v).0 ≡ none) × ((retry_in_process p step left attempt w).1 ≡ (step v).1)
  unfolding retry_in_process
  retry_in_process-none step zero attempt w h = (w, h, refl)
  retry_in_process-none step (suc left) attempt w h =
      let r = step w in
      let paused =
        p.pause (retry_backoff p.report_retry_base_delay p.report_retry_max_delay attempt) r.1 in
      elim (Option-cases r.0) [
        | inl ok ↦ (w, ok, rw (ok, retry_in_process) refl)
        | inr (e, bad) ↦ elim (Option-cases paused.0) [
          | inl on ↦
              rw (bad, on, retry_in_process)
                (retry_in_process-none step left (suc attempt) paused.1
                  (rw (bad, on, retry_in_process) at h))
          | inr (ended, off) ↦ absurd (cc (rw (bad, off, retry_in_process) at h))
        ]
      ]

  module _ (sends : W → ℕ) (law : IsSendCount p sends) where
    retry-sends :
        (step : W → Option Error × W) (left attempt : ℕ) (w : W)
        → ((v : W) → sends (step v).1 ≡ sends v)
        → sends (retry_in_process p step left attempt w).1 ≡ sends w
    unfolding retry_in_process
    retry-sends step zero attempt w quiet = quiet w
    retry-sends step (suc left) attempt w quiet =
        let r = step w in
        let paused =
          p.pause (retry_backoff p.report_retry_base_delay p.report_retry_max_delay attempt) r.1 in
        let kept : sends paused.1 ≡ sends w = law.pausing _ r.1 ∙ quiet w in
        elim (Option-cases r.0) [
          | inl ok ↦ rw (ok, retry_in_process) (quiet w)
          | inr (e, bad) ↦ elim (Option-cases paused.0) [
            | inl on ↦
                rw (bad, on, retry_in_process)
                  (retry-sends step left (suc attempt) paused.1 quiet ∙ kept)
            | inr (ended, off) ↦ rw (bad, off, retry_in_process) kept
          ]
        ]

    dead_letter-sends : (m : Message) (w : W) → sends (dead_letter p m w) ≡ sends w
    unfolding dead_letter
    dead_letter-sends m w = elim (Option-cases p.publish) [
      | inl none_there ↦ rw (none_there, dead_letter) refl
      | inr (f, there) ↦ elim (Bool-cases (is_empty p.dead_letter_queue)) [
        | inl off ↦ rw (there, off, dead_letter) refl
        | inr on ↦ rw (there, on, dead_letter) (law.publishing f _ m w there)
      ]
    ]

    finalized-sends :
        (failed : Option Error) (m : Message) (k : W → MessageOutcome × W) (w : W)
        → sends (k w).1 ≡ sends w
        → sends (finalized p failed m k w).1 ≡ sends w
    unfolding finalized finalize_exhausted
    finalized-sends none m k w quiet = quiet
    finalized-sends (some e) m k w quiet = elim (Option-cases (p.context_error w)) [
      | inl live ↦ rw (live, finalize_exhausted) (dead_letter-sends m w)
      | inr (e', ended) ↦ rw (ended, finalize_exhausted) refl
    ]

    save_result-sends : (r : SendResult) (w : W) → sends (save_result p r w).1 ≡ sends w
    unfolding save_result retry_step
    save_result-sends r w = elim (Option-cases p.publish) [
      | inl none_there ↦ rw (none_there, save_result) refl
      | inr (f, there) ↦ elim (Bool-cases (is_success r.outcome || is_permanent r.outcome)) [
        | inl saved ↦
            rw (there, saved, save_result)
              (retry-sends _ _ _ w (λ v. law.publishing f _ r.message v there))
        | inr skipped ↦ rw (there, skipped, save_result) refl
      ]
    ]

    after_send-sends : (r : SendResult) (w : W) → sends (after_send p r w).1 ≡ sends w
    unfolding after_send report_result retry_step
    after_send-sends r w =
        let saved = save_result p r w in
        let reported = retry_step p (p.report r) saved.1 in
        finalized-sends saved.0 r.message (report_result p r) saved.1 (
          finalized-sends reported.0 r.message (give outcome_ack) reported.1 refl
          ∙ retry-sends (p.report r) p.max_report_retries 1 saved.1 (law.reporting r))
        ∙ save_result-sends r w

    wait_token-sends : (w : W) → sends (wait_token p w).1 ≡ sends w
    unfolding wait_token
    wait_token-sends w = elim (Option-cases p.wait) [
      | inl none_there ↦ rw (none_there, wait_token) refl
      | inr (f, there) ↦ rw (there, wait_token) (law.waiting f w there)
    ]

    send_unless_waiting-sends :
        (limited : Option Error) (m : Message) (w : W)
        → sends (send_unless_waiting p limited m w).1 ≤ suc (sends w)
    unfolding send_unless_waiting send_and_settle
    send_unless_waiting-sends (some e) m w = omega arith
    send_unless_waiting-sends none m w =
        omega (arith, law.sending m w, after_send-sends (p.send m w).0 (p.send m w).1)

    process_checked-sends : (m : Message) (w : W) → sends (process_checked p m w).1 ≤ suc (sends w)
    unfolding process_checked
    process_checked-sends m w = elim (Option-cases (validate m)) [
      | inr (e, invalid) ↦ rw (invalid, process_checked) (omega arith)
      | inl valid ↦ elim (Bool-cases (leb_ℤ m.outbox_id (pos 0))) [
        | inl lost ↦ rw (valid, lost, process_checked) (omega arith)
        | inr known ↦
            let limited = wait_token p w in
            rw (valid, known, process_checked)
              (omega (arith, wait_token-sends w, send_unless_waiting-sends limited.0 m limited.1))
      ]
    ]

    -- By any count of the sends that the sender raises by one and the other parts leave alone: however
    -- often the save and the report fail and are retried, and whatever the outcome, a message is sent
    -- at most once while it is processed.
    pub process_international-once :
        (m : Message) (w : W) → sends (process_international p m w).1 ≤ suc (sends w)
    unfolding process_international
    process_international-once m w = process_checked-sends (clone m) w
