-- ===== src/Tests/Tokens.antt =====
-- The SDP token with a Redis that is empty at first.
use sms_mno_gateway.Base.{Option, none, some, Str, codes, [], inl, ◌≡◌, refl}
use sms_mno_gateway.Mno.Sdp.{SafaricomSdpSender, get_token, fetch_token, fetch_rounds, read_auth}
use sms_mno_gateway.Redis.TokenCache.{KeyClient, token_cache, get_cached, found_token}
use sms_mno_gateway.Redis.TokenCache.Reuse.{IsAnswering, get_token_reuses}
use sms_mno_gateway.Base.{pos}

-- A world that is the value of every key.
abbrev one_key : KeyClient (Option Str)
one_key = record {
  get = λ k w. (inl w, w);
  set = λ k v ttl w. (none, some v);
  del = λ k w. (none, none);
  exists = λ k w. (inl 1, w);
  ping = λ w. (none, w);
  close = λ w. w;
}

one_key-IsAnswering : IsAnswering one_key (λ k w. w)
one_key-IsAnswering = record {
  got = λ k w. refl;
  got_kept = λ k j w. refl;
  was_set = λ k v ttl w. refl;
}

abbrev redis_sdp : SafaricomSdpSender (Option Str)
redis_sdp = record {
  auth_url = codes "http://auth";
  send_url = codes "http://send";
  auth_username = codes "u";
  country_prefix = [];
  username = codes "u";
  password = codes "p";
  dlr_url = codes "http://dlr";
  dlr_url_api_v2 = [];
  gateway_queue_name = codes "GATEWAY";
  token_key = codes "k";
  token_ttl = pos 60;
  token_cache = token_cache one_key;
  http_client = record {
    new_request = λ url. none;
    send_request = λ r w. (inl (record { status_code = 200; body = []; read_error = none }), w);
  };
  circuit_breaker = none;
  clock = λ w. (0, w);
  decode_token = λ r. inl (codes "T");
  pause = λ n w. (none, w);
}

first_token : (get_token redis_sdp none).0 ≡ inl (codes "T")
unfolding get_token fetch_rounds fetch_token read_auth token_cache get_cached found_token
first_token = refl

get_token_reuses_example :
    get_token redis_sdp (get_token redis_sdp none).1
    ≡ (inl (codes "T"), (one_key.get (codes "k") (get_token redis_sdp none).1).1)
get_token_reuses_example =
    get_token_reuses one_key (λ k w. w) one_key-IsAnswering redis_sdp refl none (codes "T")
      first_token
