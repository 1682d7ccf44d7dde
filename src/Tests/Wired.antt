-- ===== src/Tests/Wired.antt =====
-- The factory made of a configuration, and the outbox id, at concrete inputs.
use sms_mno_gateway.Base.{
  ℕ, suc, ℤ, negsuc, if◌then◌else◌, Option, none, some, Str, codes, str_eq, itoa, [], inl, ◌≡◌,
  arith,
}
use sms_mno_gateway.Domain.Message.{Message}
use sms_mno_gateway.Domain.Flexible.{unmarshal_json, quoted, unmarshal_json-itoa}
use sms_mno_gateway.Config.{Env}
use sms_mno_gateway.Config.Values.{load}
use sms_mno_gateway.Mno.{HttpClient}
use sms_mno_gateway.Mno.Wiring.{FactoryConfig}
use sms_mno_gateway.Tests.Fixtures.{hello}

abbrev no_duration : Str → Option ℤ
no_duration text = none

-- Only the URL of Airtel's reports for API v2 is set.
abbrev v2_env : Env
v2_env key =
    if str_eq key (codes "AIRTEL_SMPP_DLR_URL_API_V2") then some (codes "http://v2") else none

abbrev refusing_client : HttpClient ℕ
refusing_client = record {
  new_request = λ url. none;
  send_request = λ r w. (inl (record { status_code = 503; body = []; read_error = none }), suc w);
}

abbrev wired : FactoryConfig ℕ
wired = record {
  config = load no_duration v2_env;
  http_client = refusing_client;
  sdp_http_client = none;
  token_cache = record {
    get = λ k w. ((none, none), w);
    set = λ k t ttl w. (none, w);
    delete = λ k w. (none, w);
  };
  breaker_registry = [];
  clock = λ w. (w, suc w);
  decode_token = λ r. inl [];
  pause = λ n w. (none, w);
}

abbrev airtel_promo_message : Message
airtel_promo_message = record hello {
  network_raw = codes "airtel";
  package_id = codes "PROMO";
  source_queue = codes "API_V2";
}

unmarshal_json-itoa_example :
    (unmarshal_json (itoa (negsuc 41)) ≡ some (negsuc 41))
    × (unmarshal_json (quoted (itoa (negsuc 41))) ≡ some (negsuc 41))
unmarshal_json-itoa_example = unmarshal_json-itoa (negsuc 41) (omega arith) (omega arith)
