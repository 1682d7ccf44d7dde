-- ===== src/Bootstrap/Migrator/Cycle.antt =====
-- The way of a message that has used up its retries: from the result handler over the dead-letter
-- queue and the DLQ migrator of internal/bootstrap/app.go to its destination, from which it may be
-- consumed again.
use mathlib.Core.List.{map-append}
use sms_mno_gateway.Base.{
  ℕ, map, ◌++◌, Bool, ◌||◌, ◌+◌, suc, ◌≤◌, ◌<◌, leb_ℤ, pos, int_suc, int_max, true, false,
  if◌then◌else◌, Option, none, some, is_none, Str, str_eq, str_eq_refl, List, [], ◌∷◌, length, ◌≡◌,
  refl, ap, ◌∙◌, arith,
}
use sms_mno_gateway.Domain.Errors.{sentinel, sentinel_text, error_text, max_retries_exceeded}
use sms_mno_gateway.Domain.Message.{Message, set_error, increment_retry_count, is_transactional}
use sms_mno_gateway.Domain.Result.{SendResult, new_retryable_result}
use sms_mno_gateway.Rabbitmq.Publisher.{Body, batch, wire}
use sms_mno_gateway.Rabbitmq.Consumer.{Decoder, stamp, parse_messages}
use sms_mno_gateway.Rabbitmq.Results.{messages_of}
use sms_mno_gateway.Service.ResultHandler.{RetryLimits, max_retries, is_exhausted, give_up, sweep}
use sms_mno_gateway.Service.ResultHandler.Retries.{Failure}
use sms_mno_gateway.Bootstrap.Migrator.{is_exceeded, any_exceeded, dlq_route}

and_then : Option Message → (Message → Option Message) → Option Message
and_then none next = none
and_then (some m) next = next m

last_of : List Message → Option Message
last_of [] = none
last_of (m ∷ []) = some m
last_of (m ∷ (k ∷ ms)) = last_of (k ∷ ms)

last_consumed : Option (List Message) → Option Message
unfolding last_of
last_consumed none = none
last_consumed (some ms) = last_of ms

or_true : (b : Bool) → (b || true) ≡ true
or_true true = refl
or_true false = refl

last_of-append : (ms : List Message) (m : Message) → last_of (ms ++ m ∷ []) ≡ some m
unfolding last_of
last_of-append [] m = refl
last_of-append (k ∷ []) m = refl
last_of-append (k ∷ (j ∷ ms)) m = last_of-append (j ∷ ms) m

-- What is relied on of encoding/json: it reads back the array that it has written, where the name of
-- the source queue is not written, and an array is no message.
pub record IsJson {Bytes : Type 0} (json : Decoder Bytes) (encode : Body → Bytes) : Type 0 where
  pub no_object : (ms : List Message) → json.object (encode (batch ms)) ≡ none
  pub read_back :
      (ms : List Message) → json.array (encode (batch (map wire ms))) ≡ some (map wire ms)

module _ {Bytes : Type 0} (json : Decoder Bytes) (encode : Body → Bytes)
    (dest_queue perm_queue : Str) where
  -- The array that the publisher makes of the failures of a batch.
  dead_body : List SendResult → Bytes
  dead_body rs = encode (batch (map wire (messages_of rs)))

  -- The last message of the array, as it is consumed from the destination queue if the migrator sends
  -- the array there.
  redelivered : List SendResult → Option Message
  unfolding dead_body last_consumed
  redelivered rs =
      if str_eq (dlq_route json dest_queue perm_queue (dead_body rs)) dest_queue
      then last_consumed (parse_messages json (dead_body rs) dest_queue)
      else none

  -- One attempt that fails, in a batch with other failures, and the way back over the dead-letter
  -- queue of the message, which the result handler appends to them.
  unfoldable pub dead_letter_round :
      RetryLimits → Failure → List SendResult → Message → Option Message
  unfolding redelivered
  dead_letter_round h f others m =
      redelivered (sweep h (new_retryable_result m f.error f.latency f.time ∷ []) others).1

  -- Round after round, each with its failure and the other failures of its batch.
  unfoldable pub dead_letter_rounds :
      RetryLimits → List (Failure × List SendResult) → Message → Option Message
  unfolding and_then
  dead_letter_rounds h [] m = some m
  dead_letter_rounds h ((f, others) ∷ fs) m =
      and_then (dead_letter_round h f others m) (dead_letter_rounds h fs)

  module _ (decoded : IsJson json encode) where
    given_up : Failure → Message → Message
    given_up f m = stamp dest_queue (
        wire
          (set_error (sentinel max_retries_exceeded) (increment_retry_count (set_error f.error m))))

    int_suc_pos : (c : ℕ) → c < int_max → int_suc (pos c) ≡ pos (suc c)
    unfolding int_suc
    int_suc_pos c h = ground arith

    given_up-count :
        (f : Failure) (m : Message) (c : ℕ)
        → m.retry_count ≡ pos c
        → c < int_max
        → (given_up f m).retry_count ≡ pos (suc c)
    unfolding given_up increment_retry_count set_error wire stamp
    given_up-count f m c count small = ap int_suc count ∙ int_suc_pos c small

    given_up-max_retries :
        (h : RetryLimits) (f : Failure) (m : Message)
        → max_retries h (given_up f m) ≡ max_retries h m
    unfolding given_up increment_retry_count set_error wire stamp max_retries is_transactional
    given_up-max_retries h f m = refl

    any_exceeded-append :
        (ms : List Message) (m : Message)
        → is_exceeded m ≡ true
        → any_exceeded (ms ++ m ∷ []) ≡ true
    unfolding any_exceeded
    any_exceeded-append [] m over = rw over refl
    any_exceeded-append (k ∷ ms) m over =
        rw (any_exceeded-append ms m over) (or_true (is_exceeded k))

    -- The messages of the array of failures, of which the last is `r`.
    array_of :
        (others : List SendResult) (r : SendResult)
        → map wire (messages_of (others ++ r ∷ []))
          ≡ map wire (messages_of others) ++ wire r.message ∷ []
    array_of others r =
        rw (map-append (λ (x : SendResult). x.message) others (r ∷ []))
          (map-append wire (messages_of others) (r.message ∷ []))

    routed :
        (ms : List Message) (rs : List SendResult) (m : Message)
        → map wire (messages_of rs) ≡ ms ++ m ∷ []
        → is_exceeded m ≡ true
        → dlq_route json dest_queue perm_queue (dead_body rs) ≡ dest_queue
    unfolding dlq_route dead_body
    routed ms rs m here over =
        rw
          (
            decoded.no_object (map wire (messages_of rs)),
            decoded.read_back (messages_of rs),
            dlq_route,
            here,
            any_exceeded-append ms m over,
          )
          refl

    redelivered_lem :
        (ms : List Message) (rs : List SendResult) (m : Message)
        → map wire (messages_of rs) ≡ ms ++ m ∷ []
        → is_exceeded m ≡ true
        → redelivered rs ≡ some (stamp dest_queue m)
    unfolding redelivered parse_messages last_consumed dead_body
    redelivered_lem ms rs m here over =
        rw
          (
            routed ms rs m here over,
            str_eq_refl dest_queue,
            decoded.read_back (messages_of rs),
            parse_messages,
            here,
            map-append (stamp dest_queue) ms (m ∷ []),
          )
          (last_of-append (map (stamp dest_queue) ms) (stamp dest_queue m))

    round_lem :
        (h : RetryLimits) (f : Failure) (others : List SendResult) (m : Message)
        → leb_ℤ (max_retries h m) (given_up f m).retry_count ≡ true
        → dead_letter_round h f others m ≡ some (given_up f m)
    unfolding dead_letter_round sweep is_exhausted give_up new_retryable_result given_up
        increment_retry_count set_error wire stamp max_retries is_transactional error_text
        is_exceeded
    round_lem h f others m over =
        let r = give_up (new_retryable_result m f.error f.latency f.time) in
        rw over (
          redelivered_lem (map wire (messages_of others)) (others ++ r ∷ []) (wire r.message)
            (array_of others r) (str_eq_refl (sentinel_text max_retries_exceeded)))

    -- With a JSON library that reads back an array of messages that it has written: however often a
    -- message at or over its retry limit fails, as long as its count does not overflow, and whatever
    -- else has failed in its batches, the result handler appends it to the failures, the migrator sends
    -- their array to the destination queue, and the message can be consumed there. Where that queue is
    -- consumed, it is tried again each time.
    pub dead_letter_rounds_endless :
        (h : RetryLimits) (fs : List (Failure × List SendResult)) (m : Message) (c limit : ℕ)
        → m.retry_count ≡ pos c
        → max_retries h m ≡ pos limit
        → limit ≤ c
        → c + length fs ≤ int_max
        → is_none (dead_letter_rounds h fs m) ≡ false
    unfolding dead_letter_rounds and_then
    dead_letter_rounds_endless h [] m c limit count lim over small = refl
    dead_letter_rounds_endless h ((f, others) ∷ fs) m c limit count lim over small =
        let counted = given_up-count f m c count (omega arith) in
        rw (round_lem h f others m (rw (lim, counted) (ground arith))) (
          dead_letter_rounds_endless h fs (given_up f m) (suc c) limit counted
            (given_up-max_retries h f m ∙ lim) (omega arith) (omega arith))
