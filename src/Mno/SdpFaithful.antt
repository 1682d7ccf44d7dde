-- ===== src/Mno/SdpFaithful.antt =====
-- The results of the SDP sender of internal/sms/adapters/mno/safaricom_sdp.go are about the messages
-- it is given, one each.
use sms_mno_gateway.Base.{
  ℕ, Bool, true, false, ◌||◌, ◌==◌, none, Str, List, [], ◌∷◌, ◌⊎◌, inl, inr, ap, Bool-cases,
  Option-cases, or_else,
}
use sms_mno_gateway.Domain.Errors.{Error, mno_is_retryable}
use sms_mno_gateway.Domain.Message.{Message}
use sms_mno_gateway.Domain.Result.{SendResult}
use sms_mno_gateway.Domain.Outcome.{
  IsResultOf, AreResultsOf, new_success_result-IsResultOf, new_retryable_result-IsResultOf,
  new_permanent_result-IsResultOf,
}
use sms_mno_gateway.Ports.Senders.{IsFaithful}
use sms_mno_gateway.Mno.{HttpResponse, failed_since}
use sms_mno_gateway.Mno.Smpp.{is_2xx}
use sms_mno_gateway.Mno.Sdp.{
  SafaricomSdpSender, get_token, sdp_request, judge_sdp, read_sdp, send_with_token, execute_send,
  send_sdp,
}
use sms_mno_gateway.Mno.SdpBatch.{
  all_results, mixed_sender, all_failed_since, send_each, judge_batch, read_batch, batch_with_token,
  breaker_open, batch_unless_open, batch_of, send_batch, sdp_sender,
}
use sms_mno_gateway.Mno.Faithful.{send_guarded-IsResultOf}

all_results-AreResultsOf :
    (make : Message → SendResult) (ms : List Message)
    → ((m : Message) → IsResultOf m (make m))
    → AreResultsOf ms (all_results make ms)
unfolding all_results
all_results-AreResultsOf make [] law = tt
all_results-AreResultsOf make (m ∷ ms) law = (law m, all_results-AreResultsOf make ms law)

module _ {W : Type 0} (s : SafaricomSdpSender W) where
  judge_sdp-IsResultOf :
      (m : Message) (status : ℕ) (text : Str) (latency now : ℕ) (w : W)
      → IsResultOf m (judge_sdp s m status text latency now w).0
  unfolding judge_sdp
  judge_sdp-IsResultOf m status text latency now w = elim (Bool-cases (is_2xx status)) [
    | inl sent ↦ rw sent (new_success_result-IsResultOf m _ _ _)
    | inr refused ↦ rw refused (elim (Bool-cases (status == 401 || status == 404)) [
      | inl expired ↦ rw expired (new_retryable_result-IsResultOf m _ _ _)
      | inr known ↦ rw known (elim (Bool-cases (mno_is_retryable status none)) [
        | inl again ↦ rw again (new_retryable_result-IsResultOf m _ _ _)
        | inr never ↦ rw never (new_permanent_result-IsResultOf m _ _ _)
      ])
    ])
  ]

  read_sdp-IsResultOf :
      (r : HttpResponse ⊎ Error) (m : Message) (start : ℕ) (w : W)
      → IsResultOf m (read_sdp s r m start w).0
  unfolding read_sdp failed_since
  read_sdp-IsResultOf (inr e) m start w = new_retryable_result-IsResultOf m _ _ _
  read_sdp-IsResultOf (inl r) m start w = elim (Option-cases r.read_error) [
    | inl fine ↦ rw (fine, read_sdp) (judge_sdp-IsResultOf m r.status_code r.body _ _ _)
    | inr (e, failing) ↦ rw (failing, read_sdp) (new_retryable_result-IsResultOf m _ _ _)
  ]

  send_with_token-IsResultOf :
      (token : Str ⊎ Error) (m : Message) (start : ℕ) (w : W)
      → IsResultOf m (send_with_token s token m start w).0
  unfolding send_with_token failed_since
  send_with_token-IsResultOf (inr e) m start w = new_retryable_result-IsResultOf m _ _ _
  send_with_token-IsResultOf (inl token) m start w =
      let stamp = s.clock w in
      elim (Option-cases (s.http_client.new_request s.send_url)) [
        | inl fine ↦
            let r = s.http_client.send_request (sdp_request s token stamp.0 (m ∷ [])) stamp.1 in
            rw (fine, send_with_token) (read_sdp-IsResultOf r.0 m start r.1)
        | inr (e, failing) ↦ rw (failing, send_with_token) (new_permanent_result-IsResultOf m _ _ _)
      ]

  execute_send-IsResultOf :
      (m : Message) (start : ℕ) (w : W) → IsResultOf m (execute_send s m start w).0
  unfolding execute_send
  execute_send-IsResultOf m start w =
      send_with_token-IsResultOf (get_token s w).0 m start (get_token s w).1

  send_each-AreResultsOf : (ms : List Message) (w : W) → AreResultsOf ms (send_each s ms w).0
  unfolding send_each
  send_each-AreResultsOf [] w = tt
  send_each-AreResultsOf (m ∷ ms) w =
      let start = s.clock w in
      (
        execute_send-IsResultOf m start.0 start.1,
        send_each-AreResultsOf ms (execute_send s m start.0 start.1).1,
      )

  judge_batch-AreResultsOf :
      (ms : List Message) (status : ℕ) (text : Str) (latency now : ℕ) (w : W)
      → AreResultsOf ms (judge_batch s ms status text latency now w).0
  unfolding judge_batch
  judge_batch-AreResultsOf ms status text latency now w = elim (Bool-cases (is_2xx status)) [
    | inl sent ↦
        rw sent (all_results-AreResultsOf _ ms (λ m. new_success_result-IsResultOf m _ _ _))
    | inr refused ↦ rw refused (elim (Bool-cases (status == 401 || status == 404)) [
      | inl expired ↦
          rw expired (all_results-AreResultsOf _ ms (λ m. new_retryable_result-IsResultOf m _ _ _))
      | inr known ↦ rw known (elim (Bool-cases (mno_is_retryable status none)) [
        | inl again ↦
            rw again (all_results-AreResultsOf _ ms (λ m. new_retryable_result-IsResultOf m _ _ _))
        | inr never ↦ rw never (send_each-AreResultsOf ms w)
      ])
    ])
  ]

  read_batch-AreResultsOf :
      (r : HttpResponse ⊎ Error) (ms : List Message) (start : ℕ) (w : W)
      → AreResultsOf ms (read_batch s r ms start w).0
  unfolding read_batch all_failed_since
  read_batch-AreResultsOf (inr e) ms start w =
      all_results-AreResultsOf _ ms (λ m. new_retryable_result-IsResultOf m _ _ _)
  read_batch-AreResultsOf (inl r) ms start w =
      judge_batch-AreResultsOf ms r.status_code r.body _ _ _

  batch_with_token-AreResultsOf :
      (token : Str ⊎ Error) (ms : List Message) (start : ℕ) (w : W)
      → AreResultsOf ms (batch_with_token s token ms start w).0
  unfolding batch_with_token all_failed_since
  batch_with_token-AreResultsOf (inr e) ms start w =
      all_results-AreResultsOf _ ms (λ m. new_retryable_result-IsResultOf m _ _ _)
  batch_with_token-AreResultsOf (inl token) ms start w =
      let stamp = s.clock w in
      elim (Option-cases (s.http_client.new_request s.send_url)) [
        | inl fine ↦
            let r = s.http_client.send_request (sdp_request s token stamp.0 ms) stamp.1 in
            rw (fine, batch_with_token) (read_batch-AreResultsOf r.0 ms start r.1)
        | inr (e, failing) ↦
            rw (failing, batch_with_token)
              (all_results-AreResultsOf _ ms (λ m. new_permanent_result-IsResultOf m _ _ _))
      ]

  batch_unless_open-AreResultsOf :
      (open_now : Bool) (ms : List Message) (start : ℕ) (w : W)
      → AreResultsOf ms (batch_unless_open s open_now ms start w).0
  unfolding batch_unless_open all_failed_since
  batch_unless_open-AreResultsOf true ms start w =
      all_results-AreResultsOf _ ms (λ m. new_retryable_result-IsResultOf m _ _ _)
  batch_unless_open-AreResultsOf false ms start w =
      batch_with_token-AreResultsOf (get_token s w).0 ms start (get_token s w).1

  send_batch-AreResultsOf : (ms : List Message) (w : W) → AreResultsOf ms (send_batch s ms w).0
  unfolding send_batch batch_of all_failed_since
  send_batch-AreResultsOf [] w = tt
  send_batch-AreResultsOf (m ∷ ms) w =
      let start = s.clock w in
      elim (Option-cases (mixed_sender m.sender 1 ms)) [
        | inl same ↦
            let o = breaker_open s s.circuit_breaker start.1 in
            rw (same, batch_of) (batch_unless_open-AreResultsOf o.0 (m ∷ ms) start.0 o.1)
        | inr (other, mixed) ↦
            rw (mixed, batch_of)
              (all_results-AreResultsOf _ (m ∷ ms) (λ k. new_permanent_result-IsResultOf k _ _ _))
      ]

  pub sdp_sender-IsFaithful : IsFaithful (sdp_sender s)
  unfolding sdp_sender send_sdp
  sdp_sender-IsFaithful = record {
    sends = λ m w.
        send_guarded-IsResultOf s.clock s.circuit_breaker _ m _ _
          (λ v. execute_send-IsResultOf m _ v);
    sends_batch =
        λ f ms w e. rw (← ap (λ o. or_else o (send_batch s)) e) (send_batch-AreResultsOf ms w);
  }
