-- ===== src/Tests/Queues.antt =====
-- The publisher, the result handler and the retry cycle at concrete inputs.
use sms_mno_gateway.Base.{each_ok, str_eq, to_upper, trim_space}
use sms_mno_gateway.Domain.Message.{is_promotional, is_transactional}
use sms_mno_gateway.Rabbitmq.Publisher.{get_channel, publish_body}
use sms_mno_gateway.Rabbitmq.Results.{promotional_retries, transactional_retries}
use sms_mno_gateway.Base.{
  true, none, codes, [], ◌∷◌, pos, ◌≡◌, refl, arith, Perm, not, keep, map, reverse, is_none,
}
use sms_mno_gateway.Domain.Errors.{sentinel, mno_timeout}
use sms_mno_gateway.Rabbitmq.Publisher.{publish, publish_batch}
use sms_mno_gateway.Rabbitmq.Postings.{expected}
use sms_mno_gateway.Rabbitmq.Results.{publish_batch_results, delay_queue}
use sms_mno_gateway.Rabbitmq.Routing.{publish_batch_results_routes}
use sms_mno_gateway.Rabbitmq.Kinds.{promotional_retry_changes_queue}
use sms_mno_gateway.Rabbitmq.Consumer.{stamp}
use sms_mno_gateway.Rabbitmq.Publisher.{wire}
use sms_mno_gateway.Service.ResultHandler.{sweep, is_exhausted, give_up, max_retries}
use sms_mno_gateway.Service.ResultHandler.Sweep.{sweep_lem}
use sms_mno_gateway.Service.ResultHandler.Retries.{Failure, retry_rounds, retry_rounds_exact}
use sms_mno_gateway.Tests.Fixtures.{
  hello, parcel, result_of, mixed_batch, routes, broker, broker-IsLog, fresh_link, three_retries,
}

published : (publish_batch_results broker routes mixed_batch fresh_link).0 ≡ none
unfolding publish_batch_results publish publish_batch each_ok publish_body get_channel
    transactional_retries keep is_promotional str_eq promotional_retries
published = refl

publish_batch_results_routes_example :
    Perm
      (publish_batch_results broker routes mixed_batch fresh_link).1.world
      (expected routes mixed_batch)
publish_batch_results_routes_example =
    publish_batch_results_routes broker routes (λ w. w) broker-IsLog mixed_batch fresh_link
      published

promotional_retry_changes_queue_example :
    (delay_queue routes (stamp (codes "GATEWAY") hello) ≡ codes "P_DELAY")
    × (delay_queue routes (stamp (codes "P_RETRY") (wire (stamp (codes "GATEWAY") hello)))
        ≡ codes "T_DELAY")
promotional_retry_changes_queue_example =
    promotional_retry_changes_queue routes hello (λ e. cc) (λ e. cc) (λ e. ground (arith, e))

sweep_lem_example : sweep three_retries (result_of hello ∷ result_of parcel ∷ []) [] ≡ (
  keep (λ r. not (is_exhausted three_retries r)) (result_of hello ∷ result_of parcel ∷ []),
  map give_up
      (reverse (keep (is_exhausted three_retries) (result_of hello ∷ result_of parcel ∷ []))),
)
sweep_lem_example = sweep_lem three_retries (result_of hello ∷ result_of parcel ∷ []) []

abbrev timeout_failure : Failure
timeout_failure = record {
  error = sentinel mno_timeout;
  latency = 1;
  time = 2;
  queue = codes "P_RETRY";
}

hello_limit : max_retries three_retries hello ≡ pos 3
unfolding max_retries is_transactional str_eq to_upper trim_space
hello_limit = refl

retry_rounds_exact_example :
    is_none
      (retry_rounds three_retries (timeout_failure ∷ timeout_failure ∷ timeout_failure ∷ []) hello)
    ≡ true
retry_rounds_exact_example =
    retry_rounds_exact three_retries timeout_failure (timeout_failure ∷ timeout_failure ∷ []) hello
      0 3 refl hello_limit (omega arith)
