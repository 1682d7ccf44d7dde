-- ===== src/Tests/Consuming.antt =====
-- A consumer whose channel is closed once under it.
use sms_mno_gateway.Base.{ℕ, pos, none, some, codes, List, [], ◌∷◌, inl, ◌≡◌, refl, length, ap}
use sms_mno_gateway.Rabbitmq.Consumer.{Decoder, taken, closed}
use sms_mno_gateway.Rabbitmq.Consuming.{ConsumerClient, Session, elapsed, consume_queue}
use sms_mno_gateway.Rabbitmq.Channels.{IsChannels, consumer_channels, consume_queue-channels}
use sms_mno_gateway.Tests.Fixtures.{hello}

others_of : List ℕ → List ℕ
others_of [] = []
others_of (ch ∷ others) = others

-- A world that is the open channels.
abbrev stack_client : ConsumerClient (List ℕ)
stack_client = record {
  new_channel = λ w. (inl (length w), length w ∷ w);
  qos = λ ch n w. (none, w);
  consume = λ ch q w. (none, w);
  close = λ ch w. others_of w;
}

stack-IsChannels : IsChannels stack_client (λ w. w)
unfolding others_of
stack-IsChannels = record {
  opened = λ w ch h. cc;
  not_opened = λ w e h. absurd (cc h);
  qos_kept = λ ch n w. refl;
  consume_kept = λ ch q w. refl;
  closed = λ ch w others h. ap others_of h;
}

abbrev object_decoder : Decoder ℕ
object_decoder = record { array = λ b. none; object = λ b. some hello }

abbrev sessions : List (Session ℕ)
sessions =
    record { arrivals = taken 1 ∷ closed ∷ []; pauses = elapsed ∷ [] }
    ∷ record { arrivals = taken 2 ∷ []; pauses = [] }
    ∷ []

consume_queue-channels_example :
    (consume_queue stack_client (codes "IN") (pos 10) object_decoder sessions (7 ∷ [])).1
    ≡ consumer_channels
        (consume_queue stack_client (codes "IN") (pos 10) object_decoder sessions (7 ∷ [])).0
        (7 ∷ [])
consume_queue-channels_example =
    consume_queue-channels stack_client (codes "IN") (pos 10) (λ w. w) stack-IsChannels
      object_decoder sessions (7 ∷ [])
