-- ===== src/Mno/Sdp.antt =====
-- internal/sms/adapters/mno/safaricom_sdp.go: the token, and one message or a batch in a request.
-- json.Marshal of its payloads cannot fail: they hold strings and integers only.
use sms_mno_gateway.Base.{
  ℕ, ℤ, zero, suc, ◌-◌, ◌/◌, ◌||◌, ◌==◌, if◌then◌else◌, Option, none, some, Str, codes, decimal,
  List, [], ◌∷◌, ◌++◌, map, is_empty, ◌⊎◌, inl, inr, ◌>>=◌, give,
}
use sms_mno_gateway.Domain.Network.{safaricom}
use sms_mno_gateway.Domain.Errors.{
  Error, sentinel, mno, foreign, wrapped, error_text, mno_unavailable, token_expired,
  token_fetch_fail, mno_is_retryable,
}
use sms_mno_gateway.Domain.Message.{Message, normalize_msisdn}
use sms_mno_gateway.Domain.Result.{
  SendResult, new_success_result, new_retryable_result, new_permanent_result,
}
use sms_mno_gateway.Mno.{
  HttpClient, HttpRequest, HttpResponse, SdpSmsRecord, sdp_auth, sdp_send, CircuitBreaker,
  failed_since, send_guarded,
}
use sms_mno_gateway.Mno.Urls.{resolve_dlr_url}
use sms_mno_gateway.Mno.Smpp.{is_2xx}

-- ports.TokenCache: `get` gives the token if it is found, and an error.
pub record TokenCache (W : Type 0) : Type 0 where
  pub get : Str → W → (Option Str × Option Error) × W
  pub set : Str → Str → ℤ → W → Option Error × W
  pub delete : Str → W → Option Error × W

-- `decode_token` is json.Decoder on an SDPAuthResponse, `pause` waits for so many seconds unless the
-- context ends first, with its error.
pub record SafaricomSdpSender (W : Type 0) : Type 0 where
  pub auth_url : Str
  pub send_url : Str
  pub auth_username : Str
  pub country_prefix : Str
  pub username : Str
  pub password : Str
  pub dlr_url : Str
  pub dlr_url_api_v2 : Str
  pub gateway_queue_name : Str
  pub token_key : Str
  pub token_ttl : ℤ
  pub token_cache : TokenCache W
  pub http_client : HttpClient W
  pub circuit_breaker : Option (CircuitBreaker W)
  pub clock : W → ℕ × W
  pub decode_token : HttpResponse → Str ⊎ Error
  pub pause : ℕ → W → Option Error × W

-- fmt.Errorf "<text>: %w" e.
unfoldable pub wrap_error : Str → Error → Error
wrap_error text e = wrapped (text ++ (codes ": " ++ error_text e)) e

module _ {W : Type 0} (s : SafaricomSdpSender W) where
  unfoldable pub checked_token : Str ⊎ Error → Str ⊎ Error
  unfolding wrap_error
  checked_token (inr e) = inr (wrap_error (codes "failed to decode auth response") e)
  checked_token (inl token) =
      if is_empty token then inr (foreign (codes "received empty token from SDP")) else inl token

  unfoldable pub read_auth : HttpResponse ⊎ Error → Str ⊎ Error
  unfolding checked_token
  read_auth (inr e) = inr (wrap_error (codes "auth request failed") e)
  read_auth (inl response) =
      if response.status_code == 200
      then checked_token (s.decode_token response)
      else inr (
          foreign (
            codes "auth failed with status "
            ++ (decimal response.status_code ++ (codes ": " ++ response.body))))

  unfoldable pub auth_request : HttpRequest
  auth_request = record {
    url = s.auth_url;
    headers =
        (codes "Content-Type", codes "application/json")
        ∷ (codes "X-Requested-With", codes "XMLHttpRequest")
        ∷ [];
    body = sdp_auth s.auth_username s.password;
  }

  unfoldable pub fetch_token : W → (Str ⊎ Error) × W
  unfolding read_auth
  fetch_token = elim (s.http_client.new_request s.auth_url) [
    | some e ↦ give (inr (wrap_error (codes "failed to create auth request") e))
    | none ↦ do response ← s.http_client.send_request auth_request; give (read_auth response)
  ]

  -- The loop of getToken with so many attempts left, after the attempts `done` and the last error.
  unfoldable pub fetch_rounds : ℕ → ℕ → Error → W → (Str ⊎ Error) × W
  unfolding fetch_token
  fetch_rounds zero done last w =
      (inr (wrap_error (codes "failed to fetch token after 10 attempts") last), w)
  fetch_rounds (suc left) done last w =
      let r = fetch_token w in
      elim r.0 [
        | inl token ↦ (inl token, (s.token_cache.set s.token_key token s.token_ttl r.1).1)
        | inr e ↦
            let paused = s.pause (suc done) r.1 in
            elim paused.0 [
              | none ↦ fetch_rounds left (suc done) e paused.1
              | some ended ↦ (
                inr (
                    wrap_error
                      (codes "token fetch cancelled after "
                        ++ (decimal (suc done) ++ codes " attempts"))
                      ended),
                paused.1,
              )
            ]
      ]

  unfoldable pub get_token : W → (Str ⊎ Error) × W
  unfolding fetch_rounds
  get_token w =
      let cached = s.token_cache.get s.token_key w in
      let fetch = fetch_rounds 10 0 (foreign []) in
      elim cached.0.0 [
        | none ↦ fetch cached.1
        | some token ↦ if is_empty token then fetch cached.1 else (inl token, cached.1)
      ]

  unfoldable pub sms_record : Message → SdpSmsRecord
  unfolding resolve_dlr_url
  sms_record m = record {
    user_name = s.username;
    oa = m.sender;
    msisdn = normalize_msisdn m;
    message = m.content;
    unique_id = m.correlator;
    action_response_url = resolve_dlr_url s.dlr_url s.dlr_url_api_v2 s.gateway_queue_name m;
  }

  -- The request for some messages with a token; its time is in seconds.
  unfoldable pub sdp_request : Str → ℕ → List Message → HttpRequest
  unfolding sms_record
  sdp_request token now ms = record {
    url = s.send_url;
    headers =
        (codes "Content-Type", codes "application/json")
        ∷ (codes "X-Authorization", codes "Bearer " ++ token)
        ∷ (if is_empty s.country_prefix then [] else (codes "X-Country", s.country_prefix) ∷ []);
    body = sdp_send (now / 1000000000) (map sms_record ms);
  }

  -- A response that has been read: a 401 or 404 means that the token has expired, and clears it.
  unfoldable pub judge_sdp : Message → ℕ → Str → ℕ → ℕ → W → SendResult × W
  judge_sdp m status text latency now w =
      if is_2xx status
      then (new_success_result m text latency now, w)
      else if status == 401 || status == 404
      then (
        new_retryable_result m (sentinel token_expired) latency now,
        (s.token_cache.delete s.token_key w).1,
      )
      else if mno_is_retryable status none
      then (new_retryable_result m (mno safaricom status text) latency now, w)
      else (new_permanent_result m (mno safaricom status text) latency now, w)

  unfoldable pub read_sdp : HttpResponse ⊎ Error → Message → ℕ → W → SendResult × W
  unfolding judge_sdp failed_since
  read_sdp (inr e) m start =
      failed_since s.clock new_retryable_result m (sentinel mno_unavailable) start
  read_sdp (inl response) m start = elim response.read_error [
    | some e ↦ failed_since s.clock new_retryable_result m e start
    | none ↦ do now ← s.clock; judge_sdp m response.status_code response.body (now - start) now
  ]

  unfoldable pub send_with_token : Str ⊎ Error → Message → ℕ → W → SendResult × W
  unfolding sdp_request read_sdp
  send_with_token (inr e) m start =
      failed_since s.clock new_retryable_result m (sentinel token_fetch_fail) start
  send_with_token (inl token) m start = do
    stamp ← s.clock
    elim (s.http_client.new_request s.send_url) [
      | some e ↦ failed_since s.clock new_permanent_result m e start
      | none ↦ do
        response ← s.http_client.send_request (sdp_request token stamp (m ∷ []))
        read_sdp response m start
    ]

  unfoldable pub execute_send : Message → ℕ → W → SendResult × W
  unfolding get_token send_with_token
  execute_send m start = do token ← get_token; send_with_token token m start

  unfoldable pub send_sdp : Message → W → SendResult × W
  unfolding execute_send send_guarded
  send_sdp m = do
    start ← s.clock
    send_guarded s.clock s.circuit_breaker (execute_send m start) m start
