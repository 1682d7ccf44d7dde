-- ===== src/Service/ResultHandler/Retries.antt =====
-- How often a message that keeps failing is retried.
use sms_mno_gateway.Base.{
  ℕ, ◌+◌, suc, if◌then◌else◌, Option, none, some, List, [], ◌∷◌, leb_ℤ, leb, length, ◌≡◌, refl, ap,
  ◌∙◌, arith, Str, pos, int_suc, int_max, ◌≤◌, ◌<◌, is_none,
}
use sms_mno_gateway.Domain.Errors.{Error}
use sms_mno_gateway.Domain.Message.{Message, set_error, increment_retry_count, is_transactional}
use sms_mno_gateway.Domain.Result.{SendResult, new_retryable_result}
use sms_mno_gateway.Rabbitmq.Publisher.{wire}
use sms_mno_gateway.Rabbitmq.Consumer.{stamp}
use sms_mno_gateway.Service.ResultHandler.{RetryLimits, max_retries, is_exhausted, sweep}

-- A failure of a send attempt: the error, how long it took, when it was, and the queue from which
-- the message comes back if it is retried.
pub record Failure : Type 0 where
  pub error : Error
  pub latency : ℕ
  pub time : ℕ
  pub queue : Str

requeued : Str → List SendResult → Option Message
requeued queue [] = none
requeued queue (r ∷ rs) = some (stamp queue (wire r.message))

-- One round: the attempt fails with a retryable result, the result handler sweeps the batch, and a
-- message that it leaves among the retryable ones comes back from the broker.
unfoldable pub retry_round : RetryLimits → Failure → Message → Option Message
unfolding requeued
retry_round h f m =
    requeued f.queue (sweep h (new_retryable_result m f.error f.latency f.time ∷ []) []).0

-- Round after round; `none` once the message is dead-lettered.
unfoldable pub retry_rounds : RetryLimits → List Failure → Message → Option Message
retry_rounds h [] m = some m
retry_rounds h (f ∷ fs) m = elim (retry_round h f m) [
  | none ↦ none
  | some m' ↦ retry_rounds h fs m'
]

int_suc_pos : (c : ℕ) → c < int_max → int_suc (pos c) ≡ pos (suc c)
unfolding int_suc
int_suc_pos c h = ground arith

-- The message as it comes back from a failed attempt.
after_failure : Failure → Message → Message
after_failure f m = stamp f.queue (wire (increment_retry_count (set_error f.error m)))

after_failure-count :
    (f : Failure) (m : Message) (c : ℕ)
    → m.retry_count ≡ pos c
    → c < int_max
    → (after_failure f m).retry_count ≡ pos (suc c)
unfolding after_failure increment_retry_count set_error wire stamp
after_failure-count f m c count small = ap int_suc count ∙ int_suc_pos c small

after_failure-max_retries :
    (h : RetryLimits) (f : Failure) (m : Message)
    → max_retries h (after_failure f m) ≡ max_retries h m
unfolding after_failure increment_retry_count set_error wire stamp max_retries is_transactional
after_failure-max_retries h f m = refl

retry_round_lem :
    (h : RetryLimits) (f : Failure) (m : Message)
    → retry_round h f m ≡ (
        if leb_ℤ (max_retries h m) (after_failure f m).retry_count
        then none
        else some (after_failure f m))
unfolding retry_round sweep is_exhausted new_retryable_result after_failure increment_retry_count
    set_error wire stamp max_retries is_transactional
retry_round_lem h f m = ground arith

-- A message whose every attempt fails in a retryable way is dead-lettered in the round in which its
-- count reaches the limit of its kind, and in no earlier one: of a count `c` and a limit that are
-- not negative, where the count does not overflow, after one or more failures it is dead-lettered
-- exactly when the limit is at most `c` plus the failures. The failure is counted before the
-- comparison: with a limit of at least one, a new message is dead-lettered at its failure number
-- `limit`, after one retry less than that.
pub retry_rounds_exact :
    (h : RetryLimits) (f : Failure) (fs : List Failure) (m : Message) (c limit : ℕ)
    → m.retry_count ≡ pos c
    → max_retries h m ≡ pos limit
    → c + length (f ∷ fs) ≤ int_max
    → is_none (retry_rounds h (f ∷ fs) m) ≡ leb limit (c + length (f ∷ fs))
unfolding retry_rounds
retry_rounds_exact h f [] m c limit count lim small =
    ground (arith, retry_round_lem h f m, after_failure-count f m c)
retry_rounds_exact h f (g ∷ fs) m c limit count lim small = ground (
  arith,
  retry_round_lem h f m,
  after_failure-count f m c,
  after_failure-max_retries h f m,
  retry_rounds_exact h g fs (after_failure f m) (suc c) limit,
)
