-- ===== src/Mno/Configured.antt =====
-- The senders that NewFactory of internal/sms/adapters/mno/factory.go makes of the configuration,
-- against the messages that its GetSender gives them.
use sms_mno_gateway.Base.{
  ℤ, Bool, true, false, ◌&&◌, if◌then◌else◌, Option, none, some, Str, codes, str_eq, is_empty, [],
  ◌⊎◌, ◌≡◌, refl, inl,
}
use sms_mno_gateway.Domain.Network.{
  Network, safaricom, airtel, telkom, equitel, cm, intnl, unknown, is_safaricom, network_eq,
}
use sms_mno_gateway.Domain.Message.{Message}
use sms_mno_gateway.Config.{Env, get_env}
use sms_mno_gateway.Config.Types.{Config, MnoConfig, SmppConfig}
use sms_mno_gateway.Config.Networks.{load_mno, load_airtel, load_airtel_promo}
use sms_mno_gateway.Common.Breakers.{breaker_of}
use sms_mno_gateway.Ports.Senders.{MnoSender}
use sms_mno_gateway.Domain.Errors.{Error}
use sms_mno_gateway.Mno.Urls.{resolve_dlr_url}
use sms_mno_gateway.Mno.Smpp.{BaseSmppSender, smpp_sender}
use sms_mno_gateway.Mno.Factory.{get_sender_by_network}
use sms_mno_gateway.Mno.Wiring.{FactoryConfig, smpp_urls, new_factory}

-- The SMPP gateway of a message, none where it goes to the SDP platform or nowhere.
unfoldable pub gateway_of : MnoConfig → Network → Bool → Option SmppConfig
gateway_of c safaricom true = some c.safaricom_smpp
gateway_of c safaricom false = none
gateway_of c airtel true = some c.airtel
gateway_of c airtel false = some c.airtel_promo
gateway_of c telkom t = some c.telkom
gateway_of c equitel t = some c.equitel
gateway_of c cm t = some (record c.cm { dlr_url_api_v2 = [] })
gateway_of c intnl t = some (record c.cm { dlr_url_api_v2 = [] })
gateway_of c unknown t = none

-- The network whose circuit breaker guards the gateway of a network.
unfoldable pub breaker_network : Network → Network
breaker_network intnl = cm
breaker_network n = n

-- The queue whose messages are not from API v2: the configured one, or the default one where the
-- configured name is empty.
unfoldable pub gateway_queue_of : Config → Str
gateway_queue_of c =
    if is_empty c.queues.gateway_queue_name
    then codes "SMS_MNO_GATEWAY_QUEUE"
    else c.queues.gateway_queue_name

some_gateway : Option SmppConfig → SmppConfig → SmppConfig
some_gateway none g = g
some_gateway (some x) g = x

module _ {W : Type 0} (c : FactoryConfig W) where
  -- A sender made of the configuration of a gateway, with the client and the breaker that it shares
  -- with the other senders of the network.
  pub record IsSenderOf (s : BaseSmppSender W) (g : SmppConfig) (n : Network) : Type 0 where
    pub urls : s.urls ≡ smpp_urls g (gateway_queue_of c.config)
    pub client : s.http_client ≡ c.http_client
    pub breaker : s.circuit_breaker ≡ breaker_of c.breaker_registry n

  choice : Network → Bool → MnoSender W ⊎ Error
  choice k t =
      if is_safaricom k && t
      then inl (smpp_sender (new_factory c).safaricom_smpp)
      else if network_eq k airtel
      then (if t
          then inl (smpp_sender (new_factory c).airtel_sender)
          else inl (smpp_sender (new_factory c).airtel_promo))
      else get_sender_by_network (new_factory c) k

same_either_way : {A : Type 0} (b : Bool) (x : A) → (if b then x else x) ≡ x
same_either_way true x = refl
same_either_way false x = refl

unfoldable pub dlr_url_of : SmppConfig → Str → Message → Str
unfolding resolve_dlr_url
dlr_url_of g = resolve_dlr_url g.dlr_url g.dlr_url_api_v2

-- Take an environment that sets no DLR variable of Airtel's promotional gateway, and one for Airtel's
-- messages from API v2. A message that came from a queue other than the gateway queue has its
-- delivery reports sent to the URL for API v2 if it is transactional, but to Airtel's other URL if it
-- is promotional.
pub airtel_api_v2_dlr_urls :
    (parse_duration : Str → Option ℤ) (env : Env) (gateway_queue v2 : Str) (m : Message)
    → env (codes "AIRTEL_SMPP_DLR_URL_PROMO") ≡ none
    → env (codes "AIRTEL_SMPP_DLR_URL_PROMO_API_V2") ≡ none
    → env (codes "AIRTEL_SMPP_DLR_URL_API_V2") ≡ some v2
    → is_empty v2 ≡ false
    → is_empty m.source_queue ≡ false
    → str_eq m.source_queue gateway_queue ≡ false
    → (dlr_url_of (load_mno parse_duration env).airtel gateway_queue m ≡ v2)
      × (dlr_url_of (load_mno parse_duration env).airtel_promo gateway_queue m
          ≡ (load_mno parse_duration env).airtel.dlr_url)
unfolding dlr_url_of resolve_dlr_url load_mno load_airtel load_airtel_promo get_env
airtel_api_v2_dlr_urls parse_duration env gateway_queue v2 m promo promo_v2 set full named other =
    (rw (set, full, named, other) refl, rw (promo, promo_v2, named, other) (same_either_way _ _))
