-- ===== src/Service/AfricasTalking.antt =====
-- internal/sms/service/africas_talking_processor.go: one send for each message, and retries of the
-- steps behind it in the process.
pub mod Once
pub mod Backoff
pub mod Reported
use sms_mno_gateway.Base.{
  ℕ, zero, suc, ◌-◌, ◌%◌, ◌^◌, ℤ, pos, int_mul, wrap, leb_ℤ, ltb_ℤ, ltb, Bool, true, false, not,
  ◌&&◌, ◌||◌, if◌then◌else◌, Option, none, some, Str, List, [], ◌∷◌, is_empty, ◌>>=◌, give,
}
use sms_mno_gateway.Domain.Errors.{Error}
use sms_mno_gateway.Domain.Message.{Message, validate, clone}
use sms_mno_gateway.Domain.Result.{SendResult, is_success, is_permanent}
use sms_mno_gateway.Ports.Queues.{Delivery}

-- The publisher and the limiter may be nil. `wait` waits for a token of the international network,
-- `pause` for a time unless the context ends first, with its error; `context_error` is ctx.Err().
-- Delays are positive after NewAfricasTalkingProcessor.
pub record AfricasTalkingProcessor (W : Type 0) : Type 0 where
  pub send : Message → W → SendResult × W
  pub report : SendResult → W → Option Error × W
  pub wait : Option (W → Option Error × W)
  pub publish : Option (Str → Message → W → Option Error × W)
  pub save_to_db_queue : Str
  pub dead_letter_queue : Str
  pub max_report_retries : ℕ
  pub report_retry_base_delay : ℕ
  pub report_retry_max_delay : ℕ
  pub pause : ℤ → W → Option Error × W
  pub context_error : W → Option Error

pub data MessageOutcome : Type 0 where
  outcome_ack outcome_nack_requeue outcome_nack_drop : MessageOutcome

-- `base * time.Duration(uint(1) << uint(attempt-1))`, capped: the shift drops the bits above 64, and
-- the product wraps around.
unfoldable pub retry_backoff : ℕ → ℕ → ℕ → ℤ
retry_backoff base max_delay attempt =
    let backoff = int_mul (pos base) (wrap (pos (2 ^ (attempt - 1) % 2 ^ 64))) in
    if ltb 0 max_delay && ltb_ℤ (pos max_delay) backoff then pos max_delay else backoff

module _ {W : Type 0} (p : AfricasTalkingProcessor W) where
  -- retryInProcess with so many retries left.
  unfoldable pub retry_in_process : (W → Option Error × W) → ℕ → ℕ → W → Option Error × W
  retry_in_process step zero attempt w = step w
  retry_in_process step (suc left) attempt w =
      let r = step w in
      let paused =
        p.pause (retry_backoff p.report_retry_base_delay p.report_retry_max_delay attempt) r.1 in
      let rest = retry_in_process step left (suc attempt) paused.1 in
      elim r.0 [
        | none ↦ (none, r.1)
        | some e ↦ elim paused.0 [ none ↦ rest | some ended ↦ (some ended, paused.1) ]
      ]

  unfoldable pub retry_step : (W → Option Error × W) → W → Option Error × W
  unfolding retry_in_process
  retry_step step = retry_in_process step p.max_report_retries 1

  unfoldable pub dead_letter : Message → W → W
  dead_letter m w = elim p.publish [
    | none ↦ w
    | some publish ↦ if is_empty p.dead_letter_queue then w else (publish p.dead_letter_queue m w).1
  ]

  unfoldable pub finalize_exhausted : Message → W → MessageOutcome × W
  unfolding dead_letter
  finalize_exhausted m w = elim (p.context_error w) [
    | some e ↦ (outcome_nack_requeue, w)
    | none ↦ (outcome_nack_drop, dead_letter m w)
  ]

  unfoldable pub finalized :
      Option Error → Message → (W → MessageOutcome × W) → W → MessageOutcome × W
  unfolding finalize_exhausted
  finalized (some e) m k = finalize_exhausted m
  finalized none m k = k

  unfoldable pub save_result : SendResult → W → Option Error × W
  unfolding retry_step
  save_result r w = elim p.publish [
    | none ↦ (none, w)
    | some publish ↦
        if is_success r.outcome || is_permanent r.outcome
        then retry_step (publish p.save_to_db_queue r.message) w
        else (none, w)
  ]

  unfoldable pub report_result : SendResult → W → MessageOutcome × W
  unfolding finalized
  report_result r w =
      let reported = retry_step (p.report r) w in
      finalized reported.0 r.message (give outcome_ack) reported.1

  -- What follows the send. The result holds the message that was sent, which the sender has changed
  -- in place.
  unfoldable pub after_send : SendResult → W → MessageOutcome × W
  unfolding save_result report_result
  after_send r w =
      let saved = save_result r w in finalized saved.0 r.message (report_result r) saved.1

  unfoldable pub send_and_settle : Message → W → MessageOutcome × W
  unfolding after_send
  send_and_settle m = do r ← p.send m; after_send r

  unfoldable pub wait_token : W → Option Error × W
  wait_token = elim p.wait [ none ↦ give none | some wait ↦ wait ]

  unfoldable pub send_unless_waiting : Option Error → Message → W → MessageOutcome × W
  unfolding send_and_settle
  send_unless_waiting (some e) m = give outcome_nack_requeue
  send_unless_waiting none m = send_and_settle m

  unfoldable pub process_checked : Message → W → MessageOutcome × W
  unfolding wait_token send_unless_waiting
  process_checked m w = elim (validate m) [
    | some e ↦ (outcome_nack_drop, w)
    | none ↦
        if leb_ℤ m.outbox_id (pos 0)
        then (outcome_nack_drop, w)
        else let limited = wait_token w in send_unless_waiting limited.0 m limited.1
  ]

  unfoldable pub process_international : Message → W → MessageOutcome × W
  unfolding process_checked
  process_international m = process_checked (clone m)

  -- The loop of ProcessDelivery, with `requeue` and `drop` so far.
  unfoldable pub process_each : List Message → Bool × Bool → W → (Bool × Bool) × W
  process_each [] flags w = (flags, w)
  process_each (m ∷ ms) flags w =
      let r = process_international m w in
      let flags' : Bool × Bool = elim r.0 [
        | outcome_ack ↦ flags
        | outcome_nack_requeue ↦ (true, flags.1)
        | outcome_nack_drop ↦ (flags.0, true)
      ] in
      process_each ms flags' r.1

  unfoldable pub answer_flags : Delivery W → Bool × Bool → W → Option Error × W
  answer_flags d (true, drop) = d.nack true
  answer_flags d (false, true) = d.nack false
  answer_flags d (false, false) = d.ack

  unfoldable pub process_international_delivery : Delivery W → W → Option Error × W
  unfolding process_each answer_flags
  process_international_delivery d =
      if is_empty d.messages
      then d.ack
      else do flags ← process_each d.messages (false, false); answer_flags d flags
