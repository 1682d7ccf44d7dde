-- ===== src/Tests/Senders.antt =====
-- The senders and their factory at concrete inputs.
use sms_mno_gateway.Base.{str_eq, to_upper, trim_space}
use sms_mno_gateway.Domain.Network.{parse_network}
use sms_mno_gateway.Base.{ℕ, pos, suc, true, none, some, codes, [], ◌∷◌, inl, All, ◌≡◌, refl}
use sms_mno_gateway.Domain.Network.{network_is_valid, airtel}
use sms_mno_gateway.Domain.Message.{Message, network}
use sms_mno_gateway.Ports.Senders.{IsFaithfulFactory}
use sms_mno_gateway.Mno.{HttpClient}
use sms_mno_gateway.Mno.Urls.{query_escape, build_request_url}
use sms_mno_gateway.Mno.Parameters.{occurrences, build_request_url-parameters}
use sms_mno_gateway.Mno.Smpp.{BaseSmppSender}
use sms_mno_gateway.Mno.Sdp.{SafaricomSdpSender}
use sms_mno_gateway.Mno.SdpBatch.{mixed_sender}
use sms_mno_gateway.Mno.Factory.{Factory, factory}
use sms_mno_gateway.Mno.Routes.{factory-IsFaithfulFactory}
use sms_mno_gateway.Service.Homogeneous.{IsUnmixed, sdp_chunks-IsUnmixed}
use sms_mno_gateway.Service.Processor.Grouping.{group_by_sender, chunks}
use sms_mno_gateway.Tests.Fixtures.{hello, parcel}

abbrev accepting_client : HttpClient ℕ
accepting_client = record {
  new_request = λ url. none;
  send_request = λ r w. (
    inl (record { status_code = 200; body = codes "0: Accepted for delivery"; read_error = none }),
    suc w,
  );
}

abbrev kannel : BaseSmppSender ℕ
kannel = record {
  network = airtel;
  urls = record {
    base_url = codes "http://kannel";
    smsc = codes "A";
    username = codes "u";
    password = codes "p";
    dlr_url = codes "http://dlr";
    dlr_url_api_v2 = [];
    gateway_queue_name = codes "GATEWAY";
  };
  http_client = accepting_client;
  circuit_breaker = none;
  clock = λ w. (w, suc w);
}

abbrev sdp : SafaricomSdpSender ℕ
sdp = record {
  auth_url = codes "http://auth";
  send_url = codes "http://send";
  auth_username = codes "u";
  country_prefix = [];
  username = codes "u";
  password = codes "p";
  dlr_url = codes "http://dlr";
  dlr_url_api_v2 = [];
  gateway_queue_name = codes "GATEWAY";
  token_key = codes "k";
  token_ttl = pos 60;
  token_cache = record {
    get = λ k w. ((some (codes "T"), none), w);
    set = λ k t ttl w. (none, w);
    delete = λ k w. (none, w);
  };
  http_client = accepting_client;
  circuit_breaker = none;
  clock = λ w. (w, suc w);
  decode_token = λ r. inl (codes "T");
  pause = λ n w. (none, w);
}

abbrev senders : Factory ℕ
senders = record {
  safaricom_sdp = sdp;
  safaricom_smpp = kannel;
  airtel_sender = kannel;
  airtel_promo = kannel;
  telkom_sender = kannel;
  equitel_sender = kannel;
  cm_sender = kannel;
}

factory-IsFaithfulFactory_example : IsFaithfulFactory (factory senders)
factory-IsFaithfulFactory_example = factory-IsFaithfulFactory senders

hello_network : network_is_valid (network hello) ≡ true
unfolding network network_is_valid parse_network str_eq to_upper trim_space
hello_network = refl

mixed_pair : mixed_sender (codes "SHOP") 1 (parcel ∷ []) ≡ some (codes "POST", 1)
unfolding mixed_sender str_eq
mixed_pair = refl

sdp_chunks-IsUnmixed_example :
    All (λ g. All IsUnmixed (chunks 2 g)) (group_by_sender (hello ∷ parcel ∷ hello ∷ []))
sdp_chunks-IsUnmixed_example = sdp_chunks-IsUnmixed 2 (hello ∷ parcel ∷ hello ∷ [])

abbrev awkward : Message
awkward = record hello { content = codes "a&to=b" }

build_request_url-parameters_example :
    (occurrences b'&' (build_request_url kannel.urls awkward) ≡ 7)
    × (occurrences b'=' (build_request_url kannel.urls awkward) ≡ 8)
unfolding occurrences
build_request_url-parameters_example = build_request_url-parameters kannel.urls awkward

escaped : query_escape (codes "a&b=c é") ≡ codes "a%26b%3Dc+%C3%A9"
unfolding query_escape
escaped = refl
