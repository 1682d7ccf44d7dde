-- ===== src/Rabbitmq/Consuming.antt =====
-- openChannel and Consume of internal/sms/adapters/rabbitmq/consumer.go: the loop that reads the
-- channel and opens a new one when it is closed.
use sms_mno_gateway.Base.{
  ℕ, ℤ, pos, leb_ℤ, Bool, true, false, if◌then◌else◌, Option, none, some, Str, List, [], ◌∷◌, ◌++◌,
  ◌⊎◌, inl, inr,
}
use sms_mno_gateway.Domain.Errors.{Error}
use sms_mno_gateway.Rabbitmq.Consumer.{Decoder, Arrival, Fate, drain_channel}

-- The calls of the AMQP client library. A channel is known by a number.
pub record ConsumerClient (W : Type 0) : Type 0 where
  pub new_channel : W → (ℕ ⊎ Error) × W
  pub qos : ℕ → ℤ → W → Option Error × W
  pub consume : ℕ → Str → W → Option Error × W
  pub close : ℕ → W → W

-- What the select of the reconnection loop meets: the end of the pause or that of the context.
pub data Pause : Type 0 where
  elapsed context_done : Pause

-- What a channel offers until it is closed or left, and the pauses behind it.
pub record Session (Bytes : Type 0) : Type 0 where
  pub arrivals : List (Arrival Bytes)
  pub pauses : List Pause

-- Where the goroutine is when its observation ends.
pub data Status : Type 0 where
  reading : ℕ → Status
  waiting stopped : Status

-- The wait of NewConsumer.
unfoldable pub consumer_wait : ℤ → ℤ
consumer_wait reconnect_wait =
    if leb_ℤ reconnect_wait (pos 0) then pos 5000000000 else reconnect_wait

module _ {W : Type 0} (client : ConsumerClient W) (queue : Str) (prefetch : ℤ) where
  unfoldable pub after_consume : Option Error → ℕ → W → (ℕ ⊎ Error) × W
  after_consume none ch w = (inl ch, w)
  after_consume (some e) ch w = (inr e, client.close ch w)

  unfoldable pub after_qos : Option Error → ℕ → W → (ℕ ⊎ Error) × W
  unfolding after_consume
  after_qos none ch w = let r = client.consume ch queue w in after_consume r.0 ch r.1
  after_qos (some e) ch w = (inr e, client.close ch w)

  unfoldable pub after_new : ℕ ⊎ Error → W → (ℕ ⊎ Error) × W
  unfolding after_qos
  after_new (inl ch) w = let r = client.qos ch prefetch w in after_qos r.0 ch r.1
  after_new (inr e) w = (inr e, w)

  unfoldable pub open_channel : W → (ℕ ⊎ Error) × W
  unfolding after_new
  open_channel w = let r = client.new_channel w in after_new r.0 r.1

  -- What the inner loop ends with: the new channel, or none when the context has ended; `none` while
  -- it goes on.
  unfoldable pub if_opened : ℕ ⊎ Error → (W → Option (Option ℕ) × W) → W → Option (Option ℕ) × W
  if_opened (inl ch) again w = (some (some ch), w)
  if_opened (inr e) again w = again w

  unfoldable pub reopen : List Pause → W → Option (Option ℕ) × W
  unfolding open_channel if_opened
  reopen [] w = (none, w)
  reopen (context_done ∷ later) w = (some none, w)
  reopen (elapsed ∷ later) w = let r = open_channel w in if_opened r.0 (reopen later) r.1

  module _ {Bytes : Type 0} (json : Decoder Bytes) where
    unfoldable pub resumed :
        Option (Option ℕ)
        → (ℕ → W → (List (Fate Bytes) × Status) × W)
        → W
        → (List (Fate Bytes) × Status) × W
    resumed none next w = (([], waiting), w)
    resumed (some none) next w = (([], stopped), w)
    resumed (some (some ch)) next w = next ch w

    -- What follows drainChannel: the channel is closed, and opened anew unless the context has ended.
    unfoldable pub drained :
        Option Bool
        → List Pause
        → (ℕ → W → (List (Fate Bytes) × Status) × W)
        → ℕ
        → W
        → (List (Fate Bytes) × Status) × W
    unfolding resumed reopen
    drained none pauses next ch w = (([], reading ch), w)
    drained (some false) pauses next ch w = (([], stopped), client.close ch w)
    drained (some true) pauses next ch w =
        let r = reopen pauses (client.close ch w) in resumed r.0 next r.1

    unfoldable pub consume_loop : List (Session Bytes) → ℕ → W → (List (Fate Bytes) × Status) × W
    unfolding drained drain_channel
    consume_loop [] ch w = (([], reading ch), w)
    consume_loop (s ∷ later) ch w =
        let d = drain_channel json queue s.arrivals in
        let rest = drained d.1 s.pauses (consume_loop later) ch w in
        ((d.0 ++ rest.0.0, rest.0.1), rest.1)

    unfoldable pub started :
        ℕ ⊎ Error → List (Session Bytes) → W → ((List (Fate Bytes) × Status) ⊎ Error) × W
    unfolding consume_loop
    started (inr e) sessions w = (inr e, w)
    started (inl ch) sessions w = let r = consume_loop sessions ch w in (inl r.0, r.1)

    unfoldable pub consume_queue :
        List (Session Bytes) → W → ((List (Fate Bytes) × Status) ⊎ Error) × W
    unfolding open_channel started
    consume_queue sessions w = let r = open_channel w in started r.0 sessions r.1
