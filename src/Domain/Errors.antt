-- ===== src/Domain/Errors.antt =====
-- internal/sms/domain/errors.go. An `error` value is a sentinel, an MNOError, an error wrapped by
-- fmt.Errorf with %w, or an error of a library, of which only the text is known.
use sms_mno_gateway.Base.{
  ℕ, Bool, false, not, ◌&&◌, ◌||◌, ◌==◌, leb, ltb, Option, none, some, Str, codes, decimal, ◌++◌,
}
use sms_mno_gateway.Domain.Network.{Network, network_string}

pub data Sentinel : Type 0 where
  missing_correlator missing_content missing_msisdn missing_sender unknown_network : Sentinel
  invalid_msisdn mno_unavailable mno_rejected mno_timeout mno_invalid_response : Sentinel
  insufficient_balance rate_limited circuit_open token_expired token_fetch_fail : Sentinel
  queue_unavailable publish_failed consume_failed max_retries_exceeded : Sentinel

pub Sentinel-discrete : Discrete Sentinel
Sentinel-discrete = hlevel

-- The position in the `var` block, by which two sentinels are told apart.
unfoldable pub sentinel_code : Sentinel → ℕ
sentinel_code missing_correlator = 0
sentinel_code missing_content = 1
sentinel_code missing_msisdn = 2
sentinel_code missing_sender = 3
sentinel_code unknown_network = 4
sentinel_code invalid_msisdn = 5
sentinel_code mno_unavailable = 6
sentinel_code mno_rejected = 7
sentinel_code mno_timeout = 8
sentinel_code mno_invalid_response = 9
sentinel_code insufficient_balance = 10
sentinel_code rate_limited = 11
sentinel_code circuit_open = 12
sentinel_code token_expired = 13
sentinel_code token_fetch_fail = 14
sentinel_code queue_unavailable = 15
sentinel_code publish_failed = 16
sentinel_code consume_failed = 17
sentinel_code max_retries_exceeded = 18

unfoldable pub sentinel_text : Sentinel → Str
sentinel_text missing_correlator = codes "missing correlator"
sentinel_text missing_content = codes "missing message content"
sentinel_text missing_msisdn = codes "missing MSISDN"
sentinel_text missing_sender = codes "missing sender"
sentinel_text unknown_network = codes "unknown network"
sentinel_text invalid_msisdn = codes "invalid MSISDN format"
sentinel_text mno_unavailable = codes "MNO service unavailable"
sentinel_text mno_rejected = codes "message rejected by MNO"
sentinel_text mno_timeout = codes "MNO request timed out"
sentinel_text mno_invalid_response = codes "invalid response from MNO"
sentinel_text insufficient_balance = codes "AfricasTalking account has insufficient balance"
sentinel_text rate_limited = codes "rate limit exceeded"
sentinel_text circuit_open = codes "circuit breaker is open"
sentinel_text token_expired = codes "authentication token expired"
sentinel_text token_fetch_fail = codes "failed to fetch authentication token"
sentinel_text queue_unavailable = codes "queue service unavailable"
sentinel_text publish_failed = codes "failed to publish message"
sentinel_text consume_failed = codes "failed to consume message"
sentinel_text max_retries_exceeded = codes "maximum retry count exceeded"

-- `mno` is an MNOError whose Err is nil; an HTTP status has three digits, so it is no negative
-- number. `wrapped` holds the whole text that fmt.Errorf made, and the error behind %w.
pub data Error : Type 0 where
  sentinel : Sentinel → Error
  mno : Network → ℕ → Str → Error
  mno_caused : Network → ℕ → Str → Error → Error
  wrapped : Str → Error → Error
  foreign : Str → Error

unfoldable pub error_text : Error → Str
unfolding sentinel_text
error_text (sentinel s) = sentinel_text s
error_text (mno n status message) =
    network_string n ++ (codes " error (status " ++ (decimal status ++ (codes "): " ++ message)))
error_text (mno_caused n status message e) =
    network_string n
    ++ (codes " error (status "
        ++ (decimal status ++ (codes "): " ++ (message ++ (codes " - " ++ error_text e)))))
error_text (wrapped text e) = text
error_text (foreign text) = text

-- errors.Is e s.
unfoldable pub error_is : Error → Sentinel → Bool
unfolding sentinel_code
error_is (sentinel s) t = sentinel_code s == sentinel_code t
error_is (mno n status message) t = false
error_is (mno_caused n status message e) t = error_is e t
error_is (wrapped text e) t = error_is e t
error_is (foreign text) t = false

retryable_status : ℕ → Bool
retryable_status status =
    (leb 500 status && ltb status 600) || status == 429 || status == 408 || status == 503

-- MNOError.IsRetryable, of an MNOError with this status and underlying error (nil is `none`).
unfoldable pub mno_is_retryable : ℕ → Option Error → Bool
unfolding retryable_status
mno_is_retryable status none = retryable_status status
mno_is_retryable status (some e) =
    retryable_status status
    || error_is e mno_timeout
    || error_is e mno_unavailable
    || error_is e rate_limited

-- errors.As to *MNOError: IsRetryable of the first MNOError on the chain, if there is one.
unfoldable pub as_mno : Error → Option Bool
unfolding mno_is_retryable
as_mno (sentinel s) = none
as_mno (mno n status message) = some (mno_is_retryable status none)
as_mno (mno_caused n status message e) = some (mno_is_retryable status (some e))
as_mno (wrapped text e) = as_mno e
as_mno (foreign text) = none

retryable_sentinel : Error → Bool
retryable_sentinel e =
    error_is e mno_timeout
    || error_is e mno_unavailable
    || error_is e rate_limited
    || error_is e queue_unavailable
    || error_is e token_fetch_fail

permanent_sentinel : Error → Bool
permanent_sentinel e =
    error_is e missing_correlator
    || error_is e missing_content
    || error_is e missing_msisdn
    || error_is e missing_sender
    || error_is e unknown_network
    || error_is e invalid_msisdn
    || error_is e mno_rejected
    || error_is e max_retries_exceeded

unfoldable pub is_retryable_error : Option Error → Bool
unfolding retryable_sentinel
is_retryable_error none = false
is_retryable_error (some e) = elim (as_mno e) [
  | some retryable ↦ retryable
  | none ↦ retryable_sentinel e
]

unfoldable pub is_permanent_error : Option Error → Bool
unfolding permanent_sentinel
is_permanent_error none = false
is_permanent_error (some e) = elim (as_mno e) [
  | some retryable ↦ not retryable
  | none ↦ permanent_sentinel e
]
