-- ===== src/Mno/AfricasTalking.antt =====
-- internal/sms/adapters/mno/africas_talking.go.
pub mod Cooldown
use sms_mno_gateway.Base.{
  ℕ, ◌+◌, ◌-◌, ℤ, pos, negsuc, Bool, true, false, ◌&&◌, ◌||◌, ◌==◌, ltb, leb, if◌then◌else◌, Option,
  none, some, Str, codes, itoa, str_eq, trim_space, trim_prefix, List, [], ◌∷◌, ◌++◌, map, ◌⊎◌, inl,
  inr, ◌>>=◌, give, suc,
}
use sms_mno_gateway.Domain.Network.{intnl}
use sms_mno_gateway.Domain.Errors.{
  Error, sentinel, mno, wrapped, sentinel_text, mno_unavailable, mno_invalid_response, mno_rejected,
  insufficient_balance, mno_is_retryable,
}
use sms_mno_gateway.Domain.Message.{Message}
use sms_mno_gateway.Domain.Result.{
  SendResult, ResultType, retryable, permanent, is_retryable, new_success_result,
  new_retryable_result, new_permanent_result,
}
use sms_mno_gateway.Ports.Senders.{MnoSender}
use sms_mno_gateway.Mno.{
  HttpClient, HttpRequest, HttpResponse, form, CircuitBreaker, failed_since, send_guarded,
  is_healthy,
}

pub record AtRecipient : Type 0 where
  pub status_code : ℤ
  pub status : Str
  pub message_id : Str

unfoldable pub code_is : ℤ → ℕ → Bool
code_is (pos n) k = n == k
code_is (negsuc n) k = false

-- classifyATRejection: only 500 and 501 are worth a later retry.
unfoldable pub classify_at_rejection : ℤ → ResultType
unfolding code_is
classify_at_rejection code = if code_is code 500 || code_is code 501 then retryable else permanent

unfoldable pub is_accepted : AtRecipient → Bool
unfolding code_is
is_accepted r =
    str_eq r.status (codes "Success")
    || code_is r.status_code 101
    || code_is r.status_code 100
    || code_is r.status_code 102

fold_ascii : ℕ → ℕ
fold_ascii c = if leb b'A' c && leb c b'Z' then c + 32 else c

-- `recipients` is json.Unmarshal of a response, none for an error. `W` holds the field
-- balanceDepletedUntil, which `depleted_until` reads and `set_depleted` writes under the mutex; the
-- zero time is none.
pub record AfricasTalkingSender (W : Type 0) : Type 0 where
  pub sandbox_url : Str
  pub production_url : Str
  pub mode : Str
  pub api_key : Str
  pub api_key_prod : Str
  pub username : Str
  pub http_client : HttpClient W
  pub circuit_breaker : Option (CircuitBreaker W)
  pub balance_cooldown : ℕ
  pub recipients : Str → Option (List AtRecipient)
  pub clock : W → ℕ × W
  pub depleted_until : W → Option ℕ
  pub set_depleted : ℕ → W → W

module _ {W : Type 0} (s : AfricasTalkingSender W) where
  unfoldable pub trip_balance_cooldown : W → W
  trip_balance_cooldown w = let now = s.clock w in s.set_depleted (now.0 + s.balance_cooldown) now.1

  -- Whether some time of the cooldown remains.
  unfoldable pub is_cooling : W → Bool × W
  is_cooling w = elim (s.depleted_until w) [
    | none ↦ (false, w)
    | some until ↦ let now = s.clock w in (ltb now.0 until, now.1)
  ]

  unfoldable pub is_production : Bool
  unfolding fold_ascii
  is_production = str_eq (map fold_ascii s.mode) (codes "production")

  unfoldable pub at_request : Message → HttpRequest
  unfolding is_production
  at_request m = record {
    url = if is_production then s.production_url else s.sandbox_url;
    headers =
        (codes "Content-Type", codes "application/x-www-form-urlencoded")
        ∷ (codes "Accept", codes "application/json")
        ∷ (codes "apiKey", if is_production then s.api_key_prod else s.api_key)
        ∷ [];
    body = form (
        (codes "username", s.username)
        ∷ (codes "to", b'+' ∷ trim_prefix (trim_space m.msisdn) (codes "+"))
        ∷ (codes "message", m.content)
        ∷ (codes "from", m.sender)
        ∷ []);
  }

  unfoldable pub rejection_error : AtRecipient → Error
  rejection_error r =
      wrapped
        (sentinel_text mno_rejected
          ++ (codes ": status=" ++ (r.status ++ (codes " statusCode=" ++ itoa r.status_code))))
        (sentinel mno_rejected)

  unfoldable pub rejected : AtRecipient → Message → ℕ → ℕ → SendResult
  unfolding rejection_error classify_at_rejection
  rejected r m latency now =
      if is_retryable (classify_at_rejection r.status_code)
      then new_retryable_result m (rejection_error r) latency now
      else new_permanent_result m (rejection_error r) latency now

  unfoldable pub judge_recipient : AtRecipient → Message → Str → ℕ → ℕ → W → SendResult × W
  unfolding rejected is_accepted trip_balance_cooldown
  judge_recipient r m text latency now w =
      if is_accepted r
      then (
        record (new_success_result m text latency now) {
          external_message_id = r.message_id;
          network_code = itoa r.status_code;
        },
        w,
      )
      else (
        record (rejected r m latency now) { network_code = itoa r.status_code },
        if code_is r.status_code 405 then trip_balance_cooldown w else w,
      )

  unfoldable pub judge_recipients :
      Option (List AtRecipient) → Message → Str → ℕ → ℕ → W → SendResult × W
  unfolding judge_recipient
  judge_recipients none m text latency now w =
      (new_retryable_result m (sentinel mno_invalid_response) latency now, w)
  judge_recipients (some []) m text latency now w =
      (new_permanent_result m (sentinel mno_invalid_response) latency now, w)
  judge_recipients (some (r ∷ rs)) m text latency now w = judge_recipient r m text latency now w

  unfoldable pub judge_at : Message → ℕ → Str → ℕ → ℕ → W → SendResult × W
  unfolding judge_recipients
  judge_at m status text latency now w =
      if status == 200 || status == 201
      then judge_recipients (s.recipients text) m text latency now w
      else if mno_is_retryable status none
      then (new_retryable_result m (mno intnl status text) latency now, w)
      else (new_permanent_result m (mno intnl status text) latency now, w)

  unfoldable pub read_at : HttpResponse ⊎ Error → Message → ℕ → W → SendResult × W
  unfolding judge_at failed_since
  read_at (inr e) m start =
      failed_since s.clock new_retryable_result m (sentinel mno_unavailable) start
  read_at (inl response) m start = elim response.read_error [
    | some e ↦ failed_since s.clock new_retryable_result m e start
    | none ↦ do now ← s.clock; judge_at m response.status_code response.body (now - start) now
  ]

  unfoldable pub execute_at : Message → ℕ → W → SendResult × W
  unfolding read_at at_request
  execute_at m start = elim (s.http_client.new_request (at_request m).url) [
    | some e ↦ failed_since s.clock new_permanent_result m e start
    | none ↦ do response ← s.http_client.send_request (at_request m); read_at response m start
  ]

  unfoldable pub send_unless_cooling : Bool → Message → ℕ → W → SendResult × W
  unfolding execute_at send_guarded failed_since
  send_unless_cooling true m start =
      failed_since s.clock new_permanent_result m (sentinel insufficient_balance) start
  send_unless_cooling false m start =
      send_guarded s.clock s.circuit_breaker (execute_at m start) m start

  unfoldable pub send_at : Message → W → SendResult × W
  unfolding is_cooling send_unless_cooling
  send_at m = do start ← s.clock; cooling ← is_cooling; send_unless_cooling cooling m start

  unfoldable pub at_sender : MnoSender W
  at_sender = record {
    send = send_at;
    send_batch = none;
    is_healthy = is_healthy s.circuit_breaker;
  }
