-- ===== src/Mno/Wiring.antt =====
-- NewFactory of internal/sms/adapters/mno/factory.go, with the constructors of the senders.
use sms_mno_gateway.Base.{ℕ, [], if◌then◌else◌, Option, or_else, Str, codes, is_empty, ◌⊎◌}
use sms_mno_gateway.Domain.Network.{Network, safaricom, airtel, telkom, equitel, cm}
use sms_mno_gateway.Domain.Errors.{Error}
use sms_mno_gateway.Config.Types.{Config, SdpConfig, SmppConfig}
use sms_mno_gateway.Common.Breakers.{BreakerRegistry, breaker_of}
use sms_mno_gateway.Mno.{HttpClient, HttpResponse}
use sms_mno_gateway.Mno.Urls.{SmppUrls}
use sms_mno_gateway.Mno.Smpp.{BaseSmppSender}
use sms_mno_gateway.Mno.Sdp.{SafaricomSdpSender, TokenCache}
use sms_mno_gateway.Mno.Factory.{Factory}

-- FactoryConfig, with what the senders take from the libraries: the clock, the decoding of a token
-- and the pause. `sdp_http_client` may be nil.
pub record FactoryConfig (W : Type 0) : Type 0 where
  pub config : Config
  pub http_client : HttpClient W
  pub sdp_http_client : Option (HttpClient W)
  pub token_cache : TokenCache W
  pub breaker_registry : BreakerRegistry W
  pub clock : W → ℕ × W
  pub decode_token : HttpResponse → Str ⊎ Error
  pub pause : ℕ → W → Option Error × W

-- SetGatewayQueueName, on a variable that holds the default name: an empty name is ignored.
unfoldable pub set_gateway_queue_name : Str → Str
set_gateway_queue_name name = if is_empty name then codes "SMS_MNO_GATEWAY_QUEUE" else name

-- What a constructor of an SMPP sender is given, and the gateway queue that SetGatewayQueueName has
-- set.
unfoldable pub smpp_urls : SmppConfig → Str → SmppUrls
smpp_urls g gateway_queue = record {
  base_url = g.url;
  smsc = g.smsc;
  username = g.username;
  password = g.password;
  dlr_url = g.dlr_url;
  dlr_url_api_v2 = g.dlr_url_api_v2;
  gateway_queue_name = gateway_queue;
}

module _ {W : Type 0} (c : FactoryConfig W) where
  -- NewSafaricomSMPPSender, NewAirtelSender, NewTelkomSender and NewEquitelSender around
  -- NewBaseSMPPSender.
  unfoldable pub new_smpp_sender : Network → SmppConfig → BaseSmppSender W
  unfolding smpp_urls breaker_of set_gateway_queue_name
  new_smpp_sender network g = record {
    network = network;
    urls = smpp_urls g (set_gateway_queue_name c.config.queues.gateway_queue_name);
    http_client = c.http_client;
    circuit_breaker = breaker_of c.breaker_registry network;
    clock = c.clock;
  }

  -- NewCMSender, which takes no URL for API v2.
  unfoldable pub new_cm_sender : SmppConfig → BaseSmppSender W
  unfolding new_smpp_sender
  new_cm_sender g = new_smpp_sender cm (record g { dlr_url_api_v2 = [] })

  unfoldable pub new_safaricom_sdp_sender : SdpConfig → SafaricomSdpSender W
  unfolding breaker_of set_gateway_queue_name
  new_safaricom_sdp_sender s = record {
    auth_url = s.auth_url;
    send_url = s.send_url;
    auth_username = if is_empty s.auth_user then s.username else s.auth_user;
    country_prefix = s.country_prefix;
    username = s.username;
    password = s.password;
    dlr_url = s.dlr_url;
    dlr_url_api_v2 = s.dlr_url_api_v2;
    gateway_queue_name = set_gateway_queue_name c.config.queues.gateway_queue_name;
    token_key = s.token_key;
    token_ttl = s.token_ttl;
    token_cache = c.token_cache;
    http_client = or_else c.sdp_http_client c.http_client;
    circuit_breaker = breaker_of c.breaker_registry safaricom;
    clock = c.clock;
    decode_token = c.decode_token;
    pause = c.pause;
  }

  unfoldable pub new_factory : Factory W
  unfolding new_smpp_sender new_cm_sender new_safaricom_sdp_sender
  new_factory = record {
    safaricom_sdp = new_safaricom_sdp_sender c.config.mno.safaricom_sdp;
    safaricom_smpp = new_smpp_sender safaricom c.config.mno.safaricom_smpp;
    airtel_sender = new_smpp_sender airtel c.config.mno.airtel;
    airtel_promo = new_smpp_sender airtel c.config.mno.airtel_promo;
    telkom_sender = new_smpp_sender telkom c.config.mno.telkom;
    equitel_sender = new_smpp_sender equitel c.config.mno.equitel;
    cm_sender = new_cm_sender c.config.mno.cm;
  }
