-- ===== src/Service/Processor/Checked.antt =====
-- What processMessage of internal/sms/service/processor.go returns, on every path.
use sms_mno_gateway.Base.{ℕ, Bool, true, false, Option, none, some, inl, inr, ◌⊎◌, ◌≡◌, refl}
use sms_mno_gateway.Domain.Errors.{Error}
use sms_mno_gateway.Domain.Message.{Message, validate, clone, network}
use sms_mno_gateway.Domain.Outcome.{
  IsResultOf, new_retryable_result-IsResultOf, new_permanent_result-IsResultOf,
}
use sms_mno_gateway.Ports.Senders.{MnoSender, IsFaithful, IsFaithfulFactory}
use sms_mno_gateway.Service.Processor.{Processor}
use sms_mno_gateway.Service.Processor.Single.{
  process_message, fail_since, rate_limit, send_if_healthy, send_by, send_unless_limited,
  send_unless_invalid, process_clone,
}

module _ {W : Type 0} (p : Processor W) (faithful : IsFaithfulFactory p.router) where
  send_if_healthy-IsResultOf :
      (s : MnoSender W) (m : Message) (start : ℕ) (healthy : Bool) (w : W)
      → IsFaithful s
      → IsResultOf m (send_if_healthy p s m start healthy w).0
  unfolding send_if_healthy fail_since
  send_if_healthy-IsResultOf s m start true w law = law.sends m w
  send_if_healthy-IsResultOf s m start false w law = new_retryable_result-IsResultOf m _ _ _

  send_by-IsResultOf :
      (s : MnoSender W ⊎ Error) (m : Message) (start : ℕ) (w : W)
      → p.router.get_sender m ≡ s
      → IsResultOf m (send_by p s m start w).0
  unfolding send_by fail_since
  send_by-IsResultOf (inr e) m start w chosen = new_permanent_result-IsResultOf m e _ _
  send_by-IsResultOf (inl s) m start w chosen =
      send_if_healthy-IsResultOf s m start (s.is_healthy w).0 (s.is_healthy w).1
        (faithful.by_message m s chosen)

  send_unless_limited-IsResultOf :
      (limited : Option Error) (m : Message) (start : ℕ) (w : W)
      → IsResultOf m (send_unless_limited p limited m start w).0
  unfolding send_unless_limited fail_since
  send_unless_limited-IsResultOf (some e) m start w = new_retryable_result-IsResultOf m _ _ _
  send_unless_limited-IsResultOf none m start w =
      send_by-IsResultOf (p.router.get_sender m) m start w refl

  send_unless_invalid-IsResultOf :
      (invalid : Option Error) (m : Message) (start : ℕ) (w : W)
      → IsResultOf m (send_unless_invalid p invalid m start w).0
  unfolding send_unless_invalid fail_since
  send_unless_invalid-IsResultOf (some e) m start w = new_permanent_result-IsResultOf m e _ _
  send_unless_invalid-IsResultOf none m start w =
      let limited = rate_limit p (network m) w in
      send_unless_limited-IsResultOf limited.0 m start limited.1

  -- Whatever the limiter, the clock and the sender's health do, the result of processMessage is about
  -- the message: nothing but the record of its sending has changed, and a retry is counted exactly
  -- if the result is retryable.
  pub process_message-IsResultOf : (m : Message) (w : W) → IsResultOf m (process_message p m w).0
  unfolding process_message clone process_clone
  process_message-IsResultOf m w =
      send_unless_invalid-IsResultOf (validate m) m (p.clock w).0 (p.clock w).1
