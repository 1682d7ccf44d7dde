-- ===== src/Tests/Fastpath.antt =====
-- The transactional handler and the message router at concrete inputs.
use sms_mno_gateway.Base.{has_prefix, str_eq, to_upper, trim_space}
use sms_mno_gateway.Domain.Message.{validate}
use sms_mno_gateway.Domain.Network.{network_is_valid, parse_network}
use sms_mno_gateway.Domain.Result.{new_success_result}
use sms_mno_gateway.Service.Transactional.{count}
use sms_mno_gateway.Service.Transactional.Workers.{take_one}
use sms_mno_gateway.Base.{
  ℕ, suc, ◌+◌, not, Option, none, some, Str, codes, List, [], ◌∷◌, keep, Perm, ◌≡◌, ◌≢◌, refl,
  arith,
}
use sms_mno_gateway.Domain.Errors.{Error, sentinel, publish_failed, queue_unavailable}
use sms_mno_gateway.Domain.Message.{Message, is_transactional, normalize_msisdn}
use sms_mno_gateway.Domain.Result.{SendResult, BatchResult, new_batch_result}
use sms_mno_gateway.Domain.Batch.{IsSorted, origins}
use sms_mno_gateway.Ports.Queues.{Delivery}
use sms_mno_gateway.Service.Processor.Single.{process_message}
use sms_mno_gateway.Service.Transactional.{TransactionalHandler, Counts, process_transactional}
use sms_mno_gateway.Service.Transactional.Equivalence.{
  as_processor, process_transactional-processor,
}
use sms_mno_gateway.Service.Transactional.Workers.{
  BatchState, fill, BatchRun, here, next, take, deliver, retire, HasEnded, gathered,
}
use sms_mno_gateway.Service.Transactional.Workers.Account.{batch_complete, sent_as}
use sms_mno_gateway.Service.Transactional.Batches.{process_transactional_batch}
use sms_mno_gateway.Service.MessageRouter.{MessageRouter, RouterCounts, route_delivery}
use sms_mno_gateway.Service.MessageRouter.Settling.{transactional_acked, promotional_requeued}
use sms_mno_gateway.Tests.Fixtures.{hello, one_sender, open_limiter}
use sms_mno_gateway.Tests.Processing.{one_sender-IsFaithful}

-- A handler whose result handler fails to publish.
abbrev pub fast : TransactionalHandler ℕ
fast = record {
  router = one_sender;
  handle_batch_results = λ b w. (some (sentinel publish_failed), suc w);
  rate_limiter = open_limiter;
  clock = λ w. (w, suc w);
  worker_count = 2;
}

abbrev code : Message
code = record hello { package_id = codes "transactional" }

process_transactional-processor_example :
    process_transactional fast code 0
    ≡ process_message (as_processor fast) (record code { msisdn = normalize_msisdn code }) 0
process_transactional-processor_example = process_transactional-processor fast code 0

abbrev pub no_counts : Counts
no_counts = record { processed = 0; failed = 0 }

abbrev sent : SendResult
sent = (process_transactional fast code 0).0

abbrev ended : BatchState ℕ
ended = record {
  msgs = [];
  idle = 0;
  held = [];
  results = sent ∷ [];
  counts = record { processed = 1; failed = 0 };
  world = (process_transactional fast code 0).1;
}

batch_run : BatchRun fast (fill fast (code ∷ []) no_counts 0) ended
unfolding fill take_one count process_transactional validate normalize_msisdn has_prefix trim_space
    network_is_valid parse_network str_eq to_upper new_success_result
batch_run =
    next (next (next here (take 0 code [] refl refl)) (deliver [] sent [] refl))
      (retire 0 refl refl)

ended-HasEnded : HasEnded ended
ended-HasEnded = record { none_idle = refl; none_busy = refl }

batch_complete_example :
    IsSorted (gathered ended) × Perm (origins (gathered ended)) (sent_as code ∷ [])
batch_complete_example =
    batch_complete fast one_sender-IsFaithful (code ∷ []) no_counts 0 ended (omega arith) batch_run
      ended-HasEnded

-- Workers that answer no message: what they do does not matter to the router.
abbrev idle_workers : List Message → Counts → ℕ → BatchState ℕ
idle_workers ms n w = record { msgs = []; idle = 0; held = []; results = []; counts = n; world = w }

abbrev failing_scheduler :
    List Message → Str → Counts × ℕ → (BatchResult × Option Error) × (Counts × ℕ)
failing_scheduler ms queue x = ((new_batch_result, some (sentinel queue_unavailable)), x)

abbrev message_router : MessageRouter (Counts × ℕ)
message_router = record {
  transactional_handler = some (process_transactional_batch fast idle_workers);
  scheduler = some failing_scheduler;
  processor = none;
}

abbrev delivery : List Message → Delivery (Counts × ℕ)
unfolding keep is_transactional str_eq to_upper trim_space
delivery ms = record {
  messages = ms;
  ack = λ x. (none, (x.0, 100 + x.1));
  nack = λ requeue x. (none, (x.0, 200 + x.1));
}

abbrev no_routes : RouterCounts
no_routes = record { transactional = 0; promotional = 0 }

none_promotional : keep (λ m. not (is_transactional m)) (code ∷ []) ≡ []
unfolding keep is_transactional str_eq to_upper trim_space
none_promotional = refl

transactional_acked_example :
    let (e, (n', w')) =
      route_delivery message_router (delivery (code ∷ [])) (codes "Q") no_routes (no_counts, 0) in
    (e ≡ none) × (w' ≡ (no_counts, 101))
unfolding delivery process_transactional_batch
transactional_acked_example =
    transactional_acked message_router fast idle_workers (delivery (code ∷ [])) (codes "Q")
      no_routes no_counts 0 refl (λ e. cc) none_promotional

some_promotional : keep (λ m. not (is_transactional m)) (code ∷ hello ∷ []) ≢ []
unfolding delivery process_transactional_batch
some_promotional e = cc e

promotional_requeued_example :
    let (e, (n', w')) =
      route_delivery message_router
        (delivery (code ∷ hello ∷ []))
        (codes "Q")
        no_routes
        (no_counts, 0) in
    (e ≡ none) × (w' ≡ (no_counts, 201))
unfolding delivery process_transactional_batch
promotional_requeued_example =
    promotional_requeued message_router fast idle_workers (delivery (code ∷ hello ∷ [])) (codes "Q")
      no_routes no_counts 0 failing_scheduler (sentinel queue_unavailable) refl refl
      some_promotional refl
