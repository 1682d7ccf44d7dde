-- ===== src/Domain/Message.antt =====
-- internal/sms/domain/message.go. A method that changes its receiver returns the new record.
use sms_mno_gateway.Base.{
  ℕ, ℤ, Bool, not, ◌&&◌, if◌then◌else◌, Option, none, some, Str, codes, str_eq, trim_space,
  to_upper, has_prefix, trim_prefix, ◌++◌, int_suc, ltb_ℤ, is_empty,
}
use sms_mno_gateway.Domain.Network.{Network, parse_network, network_is_valid}
use sms_mno_gateway.Domain.Errors.{
  Error, sentinel, error_text, missing_correlator, missing_content, missing_msisdn, missing_sender,
  unknown_network,
}

-- Times are in nanoseconds. `unit_cost` is the float64's bit pattern: the code only copies it.
pub record Message : Type 0 where
  pub correlator : Str
  pub content : Str
  pub msisdn : Str
  pub network_raw : Str
  pub sender : Str
  pub package_id : Str
  pub status : Str
  pub description : Str
  pub created_at : Str
  pub retry_count : ℤ
  pub last_error : Str
  pub processed_at : ℕ
  pub source_queue : Str
  pub outbox_id : ℤ
  pub prefix : Str
  pub country : Str
  pub mno : Str
  pub unit_cost : ℕ
  pub rate_source : Str

unfoldable pub network : Message → Network
network m = parse_network m.network_raw

-- The test of `packageId` in IsTransactional.
marked_transactional : Str → Bool
marked_transactional id = str_eq (to_upper (trim_space id)) (codes "TRANSACTIONAL")

unfoldable pub is_transactional : Message → Bool
unfolding marked_transactional
is_transactional m = marked_transactional m.package_id

unfoldable pub is_promotional : Message → Str → Bool
unfolding marked_transactional
is_promotional m gateway_queue =
    if not (is_empty m.source_queue) && not (is_empty gateway_queue)
    then str_eq m.source_queue gateway_queue
    else not (marked_transactional m.package_id)

unfoldable pub normalize_text : Str → Str
normalize_text s =
    if has_prefix s (codes "254")
    then s
    else if has_prefix s (codes "0")
    then codes "254" ++ trim_prefix s (codes "0")
    else if has_prefix s (codes "+254")
    then trim_prefix s (codes "+")
    else s

unfoldable pub normalize_msisdn : Message → Str
unfolding normalize_text
normalize_msisdn m = normalize_text (trim_space m.msisdn)

unfoldable pub validate : Message → Option Error
unfolding network
validate m =
    if is_empty m.correlator
    then some (sentinel missing_correlator)
    else if is_empty m.content
    then some (sentinel missing_content)
    else if is_empty m.msisdn
    then some (sentinel missing_msisdn)
    else if not (network_is_valid (network m))
    then some (sentinel unknown_network)
    else if is_empty m.sender
    then some (sentinel missing_sender)
    else none

abbrev pub status_sent : Str
status_sent = codes "SENT"

abbrev pub status_failed : Str
status_failed = codes "FAILED TO SEND"

unfoldable pub set_status : Str → ℕ → Message → Message
set_status s now m = record m { status = s; description = codes "success"; processed_at = now }

unfoldable pub set_error : Error → Message → Message
set_error e m = record m {
  last_error = error_text e;
  description = error_text e;
  status = status_failed;
}

unfoldable pub increment_retry_count : Message → Message
increment_retry_count m = record m { retry_count = int_suc m.retry_count }

unfoldable pub can_retry : Message → ℤ → Bool
can_retry m max_retries = ltb_ℤ m.retry_count max_retries

-- A new Message with each field copied; what shares no memory in Go is the same value here.
unfoldable pub clone : Message → Message
clone m = record {
  correlator = m.correlator;
  content = m.content;
  msisdn = m.msisdn;
  network_raw = m.network_raw;
  sender = m.sender;
  package_id = m.package_id;
  status = m.status;
  description = m.description;
  created_at = m.created_at;
  retry_count = m.retry_count;
  last_error = m.last_error;
  processed_at = m.processed_at;
  source_queue = m.source_queue;
  outbox_id = m.outbox_id;
  prefix = m.prefix;
  country = m.country;
  mno = m.mno;
  unit_cost = m.unit_cost;
  rate_source = m.rate_source;
}
