-- ===== src/Rabbitmq/Consumer.antt =====
-- internal/sms/adapters/rabbitmq/consumer.go: parsing a delivery, and the loop of drainChannel over
-- what the AMQP channel and the context offer.
use sms_mno_gateway.Base.{Bool, true, false, Option, none, some, Str, List, [], ◌∷◌, map}
use sms_mno_gateway.Domain.Message.{Message}

-- json.Unmarshal of a body, into a slice of messages and into one message; `none` is an error. The
-- null entries of a JSON array, on which the stamping panics, are left out.
pub record Decoder (Bytes : Type 0) : Type 0 where
  pub array : Bytes → Option (List Message)
  pub object : Bytes → Option Message

unfoldable pub stamp : Str → Message → Message
stamp queue m = record m { source_queue = queue }

unfoldable pub parse_messages :
    {Bytes : Type 0} → Decoder Bytes → Bytes → Str → Option (List Message)
parse_messages json body queue = elim (json.array body) [
  | some ms ↦ some (map (stamp queue) ms)
  | none ↦ elim (json.object body) [ some m ↦ some (stamp queue m ∷ []) | none ↦ none ]
]

-- What the select statements of drainChannel meet: a body that a reader takes or that the shutdown
-- overtakes, the end of the AMQP channel, or the end of the context.
pub data Arrival (Bytes : Type 0) : Type 0 where
  taken : Bytes → Arrival Bytes
  overtaken : Bytes → Arrival Bytes
  closed cancelled : Arrival Bytes

-- What becomes of each body: it is handed to the reader, or answered with `Nack(false, requeue)`.
pub data Fate (Bytes : Type 0) : Type 0 where
  delivered : List Message → Fate Bytes
  nacked : Bytes → Bool → Fate Bytes

module _ {Bytes : Type 0} (json : Decoder Bytes) (queue : Str) where
  -- The loop's fates, and its result: `true` if the AMQP channel was closed. The list ends where
  -- the observation of the loop ends.
  unfoldable pub drain_channel : List (Arrival Bytes) → List (Fate Bytes) × Option Bool
  drain_channel [] = ([], none)
  drain_channel (cancelled ∷ later) = ([], some false)
  drain_channel (closed ∷ later) = ([], some true)
  drain_channel (taken body ∷ later) =
      let rest = drain_channel later in
      elim (parse_messages json body queue) [
        | none ↦ (nacked body false ∷ rest.0, rest.1)
        | some ms ↦ (delivered ms ∷ rest.0, rest.1)
      ]
  drain_channel (overtaken body ∷ later) =
      let rest = drain_channel later in
      elim (parse_messages json body queue) [
        | none ↦ (nacked body false ∷ rest.0, rest.1)
        | some ms ↦ (nacked body true ∷ [], some false)
      ]
