-- ===== src/Rabbitmq/Publisher.antt =====
-- internal/sms/adapters/rabbitmq/publisher.go, over the AMQP client library.
use sms_mno_gateway.Base.{
  ℕ, Bool, false, ◌||◌, ◌==◌, ◌/◌, ◌%◌, ◌^◌, if◌then◌else◌, Option, none, some, Str, codes, List,
  [], ◌∷◌, ◌++◌, map, ◌⊎◌, inl, inr, ◌>>=◌,
}
use sms_mno_gateway.Domain.Errors.{Error, foreign, wrapped, error_text}
use sms_mno_gateway.Domain.Message.{Message}

-- What an AMQP body encodes: a JSON object or a JSON array of messages. SourceQueue is not encoded.
pub data Body : Type 0 where
  single : Message → Body
  batch : List Message → Body

unfoldable pub wire : Message → Message
wire m = record m { source_queue = [] }

-- json.Marshal refuses a float64 that is not a number or is infinite: its exponent bits are ones.
unfoldable pub unencodable : Message → Bool
unencodable m = m.unit_cost / 2 ^ 52 % 2048 == 2047

unfoldable pub any_unencodable : List Message → Bool
unfolding unencodable
any_unencodable [] = false
any_unencodable (m ∷ ms) = unencodable m || any_unencodable ms

-- The AMQP client library. A channel is known by a number.
pub record Amqp (W : Type 0) : Type 0 where
  pub new_channel : W → (ℕ ⊎ Error) × W
  pub is_closed : ℕ → W → Bool
  pub publish_with_context : ℕ → Str → Body → W → Option Error × W

-- The publisher's mutable field `channel`, beside the world. Its mutex makes each call of
-- `publish` one step.
pub record Link (W : Type 0) : Type 0 where
  pub channel : Option ℕ
  pub world : W

module _ {W : Type 0} (amqp : Amqp W) where
  reopened : (ℕ ⊎ Error) × W → Link W → (ℕ ⊎ Error) × Link W
  reopened (inl ch, w) l = (inl ch, record { channel = some ch; world = w })
  reopened (inr e, w) l =
      (inr (wrapped (codes "reopen publisher channel: " ++ error_text e) e), record l { world = w })

  unfoldable pub get_channel : Link W → (ℕ ⊎ Error) × Link W
  unfolding reopened
  get_channel l = elim l.channel [
    | none ↦ reopened (amqp.new_channel l.world) l
    | some ch ↦
        if amqp.is_closed ch l.world then reopened (amqp.new_channel l.world) l else (inl ch, l)
  ]

  unfoldable pub send_on : ℕ ⊎ Error → Str → Body → Link W → Option Error × Link W
  send_on (inl ch) queue body l =
      let r = amqp.publish_with_context ch queue body l.world in (r.0, record l { world = r.1 })
  send_on (inr e) queue body l = (some e, l)

  unfoldable pub publish_body : Str → Body → Link W → Option Error × Link W
  unfolding send_on
  publish_body queue body = do ch ← get_channel; send_on ch queue body

  unfoldable pub publish : Str → Message → Link W → Option Error × Link W
  unfolding unencodable
  publish queue m l =
      if unencodable m
      then (some (foreign (codes "json: unsupported value")), l)
      else publish_body queue (single (wire m)) l

  unfoldable pub publish_batch : Str → List Message → Link W → Option Error × Link W
  unfolding any_unencodable
  publish_batch queue ms l =
      if any_unencodable ms
      then (some (foreign (codes "json: unsupported value")), l)
      else publish_body queue (batch (map wire ms)) l
