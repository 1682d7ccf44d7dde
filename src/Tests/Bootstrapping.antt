-- ===== src/Tests/Bootstrapping.antt =====
-- The loops of the bootstrap at concrete inputs.
use sms_mno_gateway.Base.{str_eq, to_upper, trim_space}
use sms_mno_gateway.Domain.Errors.{sentinel_text}
use sms_mno_gateway.Domain.Message.{is_transactional}
use sms_mno_gateway.Base.{
  ℕ, suc, ◌==◌, pos, true, false, if◌then◌else◌, Option, none, some, is_none, codes, List, [], ◌∷◌,
  length, inl, ◌≡◌, refl, arith,
}
use sms_mno_gateway.Domain.Errors.{sentinel, mno_timeout, publish_failed}
use sms_mno_gateway.Domain.Message.{Message}
use sms_mno_gateway.Ports.Queues.{Delivery}
use sms_mno_gateway.Rabbitmq.Publisher.{Body, single, batch}
use sms_mno_gateway.Rabbitmq.Consumer.{Decoder}
use sms_mno_gateway.Service.ResultHandler.{max_retries}
use sms_mno_gateway.Service.ResultHandler.Retries.{Failure}
use sms_mno_gateway.Service.Processor.Batch.{Regular}
use sms_mno_gateway.Domain.Result.{SendResult, new_batch_result, new_permanent_result}
use sms_mno_gateway.Bootstrap.Batching.{Offer, offered, nothing, accumulate_batch, batching_worker}
use sms_mno_gateway.Bootstrap.Batching.Rounds.{empty_delivery_stops}
use sms_mno_gateway.Bootstrap.Migrator.{
  MigratorClient, Event, received, context_done, forwarded, requeued, dlq_route,
  run_dlq_migrator_once,
}
use sms_mno_gateway.Bootstrap.Migrator.Fates.{RunFates, dlq_migrator_fates}
use sms_mno_gateway.Bootstrap.Migrator.Cycle.{
  IsJson, dead_letter_rounds, dead_letter_rounds_endless,
}
use sms_mno_gateway.Tests.Fixtures.{hello, parcel, three_retries, simple_processor}

abbrev delivery_of : List Message → Delivery ℕ
delivery_of ms = record {
  messages = ms;
  ack = λ w. (none, suc w);
  nack = λ requeue w. (none, suc w);
}

abbrev offers : List (Offer ℕ)
offers =
    nothing
    ∷ offered (delivery_of (hello ∷ []))
    ∷ offered (delivery_of (hello ∷ parcel ∷ []))
    ∷ offered (delivery_of (parcel ∷ []))
    ∷ []

-- The second delivery takes the batch over its bound, and the third stays.
accumulated_three : length (accumulate_batch 2 offers).msgs ≡ 3
unfolding accumulate_batch
accumulated_three = refl

abbrev no_pool : Regular ℕ
no_pool ms w = (new_batch_result, w)

empty_delivery_stops_example :
    batching_worker simple_processor no_pool 8
      (suc 5)
      (offered (delivery_of []) ∷ nothing ∷ offered (delivery_of (hello ∷ [])) ∷ [])
      7
    ≡ (true, 7)
empty_delivery_stops_example =
    empty_delivery_stops simple_processor no_pool 8 5 (delivery_of [])
      (offered (delivery_of (hello ∷ [])) ∷ []) 7 refl

abbrev read_array : Body → Option (List Message)
read_array (single m) = none
read_array (batch ms) = some ms

abbrev read_object : Body → Option Message
read_object (single m) = some m
read_object (batch ms) = none

abbrev plain_json : Decoder Body
plain_json = record { array = read_array; object = read_object }

-- A client whose third publish fails.
abbrev failing_third : MigratorClient Body ℕ
failing_third = record {
  new_channel = λ w. (inl 0, w);
  queue_declare = λ ch q w. (none, w);
  consume = λ ch q tag w. (none, w);
  publish = λ ch q body w. (if w == 2 then some (sentinel publish_failed) else none, suc w);
  close = λ ch w. w;
}

abbrev exceeded : Message
exceeded = record hello { description = codes "maximum retry count exceeded" }

abbrev events : List (Event Body)
events =
    received (single exceeded)
    ∷ received (single hello)
    ∷ received (batch (hello ∷ exceeded ∷ []))
    ∷ received (batch (hello ∷ exceeded ∷ []))
    ∷ context_done
    ∷ received (single hello)
    ∷ []

dlq_migrator_fates_example :
    RunFates failing_third
      (dlq_route plain_json (codes "DEST") (codes "PERM"))
      (codes "DEST" ∷ codes "PERM" ∷ [])
      (codes "DLQ")
      (codes "dlq-migrator")
      events
      (inl 0)
      0
      (run_dlq_migrator_once failing_third plain_json
        (codes "DEST")
        (codes "PERM")
        (codes "DLQ")
        events
        0)
dlq_migrator_fates_example =
    dlq_migrator_fates failing_third plain_json (codes "DEST") (codes "PERM") (codes "DLQ") events 0

-- A batch goes to the destination whole, with a message that failed for another reason.
migrated :
    (run_dlq_migrator_once failing_third plain_json
      (codes "DEST")
      (codes "PERM")
      (codes "DLQ")
      events
      0).0
    ≡ (
      forwarded (codes "DEST") (single exceeded)
          ∷ forwarded (codes "PERM") (single hello)
          ∷ requeued (batch (hello ∷ exceeded ∷ []))
          ∷ forwarded (codes "DEST") (batch (hello ∷ exceeded ∷ []))
          ∷ [],
      some none,
    )
unfolding run_dlq_migrator_once str_eq sentinel_text
migrated = refl

abbrev timeout : Failure
timeout = record { error = sentinel mno_timeout; latency = 5; time = 9; queue = codes "DEST" }

abbrev tired : Message
tired = record hello { retry_count = pos 3 }

abbrev body_of : Body → Body
body_of b = b

decoded : IsJson plain_json body_of
decoded = record { no_object = λ ms. refl; read_back = λ ms. refl }

abbrev failed_parcel : SendResult
failed_parcel = new_permanent_result parcel (sentinel publish_failed) 3 4

abbrev rounds : List (Failure × List SendResult)
rounds = (timeout, []) ∷ (timeout, failed_parcel ∷ []) ∷ (timeout, []) ∷ []

promo_limit : max_retries three_retries tired ≡ pos 3
unfolding max_retries is_transactional str_eq to_upper trim_space
promo_limit = refl

dead_letter_rounds_endless_example :
    is_none (
      dead_letter_rounds plain_json body_of
        (codes "DEST")
        (codes "PERM")
        three_retries
        rounds
        tired)
    ≡ false
dead_letter_rounds_endless_example =
    dead_letter_rounds_endless plain_json body_of (codes "DEST") (codes "PERM") decoded
      three_retries rounds tired 3 3 refl promo_limit (omega arith) (omega arith)
