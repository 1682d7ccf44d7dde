-- ===== src/Mno/Faithful.antt =====
-- The results of the senders of internal/sms/adapters/mno are about the messages they are given.
use sms_mno_gateway.Base.{
  ℕ, Bool, true, false, ◌&&◌, Option, none, some, Str, ◌⊎◌, inl, inr, contains, Bool-cases,
  Option-cases, codes,
}
use sms_mno_gateway.Domain.Network.{Network}
use sms_mno_gateway.Domain.Errors.{Error, mno_is_retryable}
use sms_mno_gateway.Domain.Message.{Message}
use sms_mno_gateway.Domain.Result.{SendResult}
use sms_mno_gateway.Domain.Outcome.{
  IsResultOf, new_success_result-IsResultOf, new_retryable_result-IsResultOf,
  new_permanent_result-IsResultOf,
}
use sms_mno_gateway.Ports.Senders.{IsFaithful}
use sms_mno_gateway.Mno.{
  HttpResponse, CircuitBreaker, failed_since, run_admitted, execute, send_unless_open, send_guarded,
}
use sms_mno_gateway.Mno.Smpp.{
  BaseSmppSender, is_2xx, judge_smpp, read_smpp, execute_request, send_smpp, smpp_sender,
  smpp_request,
}

module _ {W : Type 0} (clock : W → ℕ × W) where
  run_admitted-IsResultOf :
      (cb : CircuitBreaker W) (request : W → SendResult × W) (m : Message) (start : ℕ)
      (admitted : ℕ ⊎ Error) (w : W)
      → ((v : W) → IsResultOf m (request v).0)
      → IsResultOf m (run_admitted clock cb request m start admitted w).0
  unfolding run_admitted failed_since
  run_admitted-IsResultOf cb request m start (inr e) w law = new_retryable_result-IsResultOf m _ _ _
  run_admitted-IsResultOf cb request m start (inl generation) w law = law w

  send_unless_open-IsResultOf :
      (cb : CircuitBreaker W) (request : W → SendResult × W) (m : Message) (start : ℕ)
      (open_now : Bool) (w : W)
      → ((v : W) → IsResultOf m (request v).0)
      → IsResultOf m (send_unless_open clock cb request m start open_now w).0
  unfolding send_unless_open failed_since execute
  send_unless_open-IsResultOf cb request m start true w law =
      new_permanent_result-IsResultOf m _ _ _
  send_unless_open-IsResultOf cb request m start false w law =
      run_admitted-IsResultOf cb request m start (cb.before_request w).0 (cb.before_request w).1 law

  pub send_guarded-IsResultOf :
      (cb : Option (CircuitBreaker W)) (request : W → SendResult × W) (m : Message) (start : ℕ)
      (w : W)
      → ((v : W) → IsResultOf m (request v).0)
      → IsResultOf m (send_guarded clock cb request m start w).0
  unfolding send_guarded
  send_guarded-IsResultOf none request m start w law = law w
  send_guarded-IsResultOf (some cb) request m start w law =
      send_unless_open-IsResultOf cb request m start (cb.is_open w).0 (cb.is_open w).1 law

judge_smpp-IsResultOf :
    (n : Network) (m : Message) (status : ℕ) (text : Str) (latency now : ℕ)
    → IsResultOf m (judge_smpp n m status text latency now)
unfolding judge_smpp
judge_smpp-IsResultOf n m status text latency now =
    elim (Bool-cases (is_2xx status && contains text (codes "0: Accepted for delivery"))) [
      | inl sent ↦ rw sent (new_success_result-IsResultOf m _ _ _)
      | inr refused ↦ rw refused (elim (Bool-cases (mno_is_retryable status none)) [
        | inl again ↦ rw again (new_retryable_result-IsResultOf m _ _ _)
        | inr never ↦ rw never (new_permanent_result-IsResultOf m _ _ _)
      ])
    ]

module _ {W : Type 0} (s : BaseSmppSender W) where
  read_smpp-IsResultOf :
      (r : HttpResponse ⊎ Error) (m : Message) (start : ℕ) (w : W)
      → IsResultOf m (read_smpp s r m start w).0
  unfolding read_smpp failed_since
  read_smpp-IsResultOf (inr e) m start w = new_retryable_result-IsResultOf m _ _ _
  read_smpp-IsResultOf (inl r) m start w = elim (Option-cases r.read_error) [
    | inl fine ↦ rw (fine, read_smpp) (judge_smpp-IsResultOf s.network m r.status_code r.body _ _)
    | inr (e, failing) ↦ rw (failing, read_smpp) (new_retryable_result-IsResultOf m _ _ _)
  ]

  execute_request-IsResultOf :
      (m : Message) (url : Str) (start : ℕ) (w : W)
      → IsResultOf m (execute_request s m url start w).0
  unfolding execute_request failed_since
  execute_request-IsResultOf m url start w = elim (Option-cases (s.http_client.new_request url)) [
    | inl fine ↦
        let r = s.http_client.send_request (smpp_request url) w in
        rw (fine, execute_request) (read_smpp-IsResultOf r.0 m start r.1)
    | inr (e, failing) ↦ rw (failing, execute_request) (new_permanent_result-IsResultOf m _ _ _)
  ]

  pub smpp_sender-IsFaithful : IsFaithful (smpp_sender s)
  unfolding smpp_sender send_smpp
  smpp_sender-IsFaithful = record {
    sends = λ m w.
        send_guarded-IsResultOf s.clock s.circuit_breaker _ m _ _
          (λ v. execute_request-IsResultOf m _ _ v);
    sends_batch = λ f ms w e. absurd (cc e);
  }
