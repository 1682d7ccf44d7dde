-- ===== src/Service/Router.antt =====
-- internal/sms/service/router.go, which passes its calls on to the factory.
use sms_mno_gateway.Base.{Bool, false, ◌⊎◌, inl, inr}
use sms_mno_gateway.Domain.Network.{Network}
use sms_mno_gateway.Domain.Errors.{Error}
use sms_mno_gateway.Ports.Senders.{MnoSender, MnoSenderFactory}

module _ {W : Type 0} (factory : MnoSenderFactory W) where
  health_of : MnoSender W ⊎ Error → W → Bool × W
  health_of (inl s) w = s.is_healthy w
  health_of (inr e) w = (false, w)

  unfoldable pub is_network_healthy : Network → W → Bool × W
  unfolding health_of
  is_network_healthy n = health_of (factory.get_sender_by_network n)

  -- GetSender and GetSenderByNetwork are the factory's.
  unfoldable pub router : MnoSenderFactory W
  router = record {
    get_sender = factory.get_sender;
    get_sender_by_network = factory.get_sender_by_network;
  }
