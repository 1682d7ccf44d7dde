-- ===== src/Rabbitmq/Channels.antt =====
-- Which channels the loop of internal/sms/adapters/rabbitmq/consumer.go leaves open.
use sms_mno_gateway.Base.{
  ℕ, ℤ, Bool, true, false, Option, none, some, Str, List, [], ◌∷◌, ◌≡◌, refl, ◌∙◌, ◌⊎◌, inl, inr,
}
use sms_mno_gateway.Domain.Errors.{Error}
use sms_mno_gateway.Rabbitmq.Consumer.{Decoder, Fate, drain_channel}
use sms_mno_gateway.Rabbitmq.Consuming.{
  ConsumerClient, Pause, elapsed, context_done, Session, Status, reading, waiting, stopped,
  after_consume, after_qos, after_new, open_channel, if_opened, reopen, resumed, drained,
  consume_loop, started, consume_queue,
}

-- The channels that are open, the newest first. Only opening and closing one changes them.
pub record IsChannels {W : Type 0} (client : ConsumerClient W) (open_in : W → List ℕ) : Type 0 where
  pub opened :
      (w : W) (ch : ℕ)
      → (client.new_channel w).0 ≡ inl ch
      → open_in (client.new_channel w).1 ≡ ch ∷ open_in w
  pub not_opened :
      (w : W) (e : Error)
      → (client.new_channel w).0 ≡ inr e
      → open_in (client.new_channel w).1 ≡ open_in w
  pub qos_kept : (ch : ℕ) (n : ℤ) (w : W) → open_in (client.qos ch n w).1 ≡ open_in w
  pub consume_kept : (ch : ℕ) (q : Str) (w : W) → open_in (client.consume ch q w).1 ≡ open_in w
  pub closed :
      (ch : ℕ) (w : W) (others : List ℕ)
      → open_in w ≡ ch ∷ others
      → open_in (client.close ch w) ≡ others

-- The channel that the goroutine has in front of the others.
unfoldable pub with_channel_of : Status → List ℕ → List ℕ
with_channel_of (reading ch) others = ch ∷ others
with_channel_of waiting others = others
with_channel_of stopped others = others

-- The same for what Consume returns.
unfoldable pub consumer_channels :
    {Bytes : Type 0} → (List (Fate Bytes) × Status) ⊎ Error → List ℕ → List ℕ
unfolding with_channel_of
consumer_channels (inl r) others = with_channel_of r.1 others
consumer_channels (inr e) others = others

channels_after : ℕ ⊎ Error → List ℕ → List ℕ
channels_after (inl ch) others = ch ∷ others
channels_after (inr e) others = others

module _ {W : Type 0} (client : ConsumerClient W) (queue : Str) (prefetch : ℤ)
    (open_in : W → List ℕ) (law : IsChannels client open_in) where
  after_consume_channels :
      (failed : Option Error) (ch : ℕ) (w : W) (others : List ℕ)
      → open_in w ≡ ch ∷ others
      → open_in (after_consume client queue prefetch failed ch w).1
        ≡ channels_after (after_consume client queue prefetch failed ch w).0 others
  unfolding after_consume channels_after
  after_consume_channels none ch w others h = h
  after_consume_channels (some e) ch w others h = law.closed ch w others h

  after_qos_channels :
      (failed : Option Error) (ch : ℕ) (w : W) (others : List ℕ)
      → open_in w ≡ ch ∷ others
      → open_in (after_qos client queue prefetch failed ch w).1
        ≡ channels_after (after_qos client queue prefetch failed ch w).0 others
  unfolding after_qos channels_after
  after_qos_channels (some e) ch w others h = law.closed ch w others h
  after_qos_channels none ch w others h =
      let r = client.consume ch queue w in
      after_consume_channels r.0 ch r.1 others (law.consume_kept ch queue w ∙ h)

  after_new_channels :
      (got : ℕ ⊎ Error) (w : W) (others : List ℕ)
      → open_in w ≡ channels_after got others
      → open_in (after_new client queue prefetch got w).1
        ≡ channels_after (after_new client queue prefetch got w).0 others
  unfolding after_new channels_after
  after_new_channels (inr e) w others h = h
  after_new_channels (inl ch) w others h =
      let r = client.qos ch prefetch w in
      after_qos_channels r.0 ch r.1 others (law.qos_kept ch prefetch w ∙ h)

  new_channel_channels :
      (got : ℕ ⊎ Error) (w : W)
      → (client.new_channel w).0 ≡ got
      → open_in (client.new_channel w).1 ≡ channels_after got (open_in w)
  unfolding channels_after
  new_channel_channels (inl ch) w h = law.opened w ch h
  new_channel_channels (inr e) w h = law.not_opened w e h

  open_channel_channels :
      (w : W)
      → open_in (open_channel client queue prefetch w).1
        ≡ channels_after (open_channel client queue prefetch w).0 (open_in w)
  unfolding open_channel
  open_channel_channels w =
      let r = client.new_channel w in
      after_new_channels r.0 r.1 (open_in w) (new_channel_channels r.0 w refl)

  reopened_status : Option (Option ℕ) → Status
  reopened_status none = waiting
  reopened_status (some none) = stopped
  reopened_status (some (some ch)) = reading ch

  if_opened_channels :
      (got : ℕ ⊎ Error) (again : W → Option (Option ℕ) × W) (w : W) (others : List ℕ)
      → open_in w ≡ channels_after got others
      → ((v : W)
          → open_in v ≡ others
          → open_in (again v).1 ≡ with_channel_of (reopened_status (again v).0) others)
      → open_in (if_opened client queue prefetch got again w).1
        ≡ with_channel_of (reopened_status (if_opened client queue prefetch got again w).0) others
  unfolding if_opened channels_after reopened_status with_channel_of
  if_opened_channels (inl ch) again w others h later = h
  if_opened_channels (inr e) again w others h later = later w h

  reopen_channels :
      (pauses : List Pause) (w : W) (others : List ℕ)
      → open_in w ≡ others
      → open_in (reopen client queue prefetch pauses w).1
        ≡ with_channel_of (reopened_status (reopen client queue prefetch pauses w).0) others
  unfolding reopen reopened_status with_channel_of
  reopen_channels [] w others h = h
  reopen_channels (context_done ∷ later) w others h = h
  reopen_channels (elapsed ∷ later) w others h =
      let r = open_channel client queue prefetch w in
      if_opened_channels r.0 (reopen client queue prefetch later) r.1 others
        (rw (← h) (open_channel_channels w)) (λ v same. reopen_channels later v others same)

  module _ {Bytes : Type 0} (json : Decoder Bytes) where
    -- Of the channels, the goroutine has left its own open exactly while it reads it.
    unfoldable pub IsBalanced : (List (Fate Bytes) × Status) × W → List ℕ → Type 0
    IsBalanced r others = open_in r.1 ≡ with_channel_of r.0.1 others

    abbrev Keeps : (ℕ → W → (List (Fate Bytes) × Status) × W) → List ℕ → Type 0
    Keeps next others = (ch : ℕ) (w : W) → open_in w ≡ ch ∷ others → IsBalanced (next ch w) others

    resumed-IsBalanced :
        (again : Option (Option ℕ)) (next : ℕ → W → (List (Fate Bytes) × Status) × W) (w : W)
        (others : List ℕ)
        → open_in w ≡ with_channel_of (reopened_status again) others
        → Keeps next others
        → IsBalanced (resumed client queue prefetch json again next w) others
    unfolding resumed IsBalanced with_channel_of reopened_status
    resumed-IsBalanced none next w others h k = h
    resumed-IsBalanced (some none) next w others h k = h
    resumed-IsBalanced (some (some ch)) next w others h k = k ch w h

    drained-IsBalanced :
        (closing : Option Bool) (pauses : List Pause)
        (next : ℕ → W → (List (Fate Bytes) × Status) × W) (others : List ℕ)
        → Keeps next others
        → Keeps (drained client queue prefetch json closing pauses next) others
    unfolding drained IsBalanced with_channel_of
    drained-IsBalanced none pauses next others k ch w h = h
    drained-IsBalanced (some false) pauses next others k ch w h = law.closed ch w others h
    drained-IsBalanced (some true) pauses next others k ch w h =
        let r = reopen client queue prefetch pauses (client.close ch w) in
        resumed-IsBalanced r.0 next r.1 others
          (reopen_channels pauses (client.close ch w) others (law.closed ch w others h)) k

    consume_loop-IsBalanced :
        (sessions : List (Session Bytes)) (others : List ℕ)
        → Keeps (consume_loop client queue prefetch json sessions) others
    unfolding consume_loop IsBalanced with_channel_of
    consume_loop-IsBalanced [] others ch w h = h
    consume_loop-IsBalanced (s ∷ later) others ch w h =
        let d = drain_channel json queue s.arrivals in
        drained-IsBalanced d.1 s.pauses (consume_loop client queue prefetch json later) others
          (consume_loop-IsBalanced later others) ch w h

    started-channels :
        (got : ℕ ⊎ Error) (sessions : List (Session Bytes)) (w : W) (others : List ℕ)
        → open_in w ≡ channels_after got others
        → open_in (started client queue prefetch json got sessions w).1
          ≡ consumer_channels (started client queue prefetch json got sessions w).0 others
    unfolding started channels_after consumer_channels IsBalanced
    started-channels (inr e) sessions w others h = h
    started-channels (inl ch) sessions w others h = consume_loop-IsBalanced sessions others ch w h

    -- However often the channel of a consumer is closed under it, and whatever the attempts to open a
    -- new one do, the consumer leaks no channel: the channels that were open before are the open ones
    -- afterwards, with one more in front exactly while the consumer reads it. A Consume with an error
    -- leaves none.
    pub consume_queue-channels :
        (sessions : List (Session Bytes)) (w : W)
        → open_in (consume_queue client queue prefetch json sessions w).1
          ≡ consumer_channels (consume_queue client queue prefetch json sessions w).0 (open_in w)
    unfolding consume_queue
    consume_queue-channels sessions w =
        let r = open_channel client queue prefetch w in
        started-channels r.0 sessions r.1 (open_in w) (open_channel_channels w)
