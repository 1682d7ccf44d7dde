-- ===== src/Rabbitmq/Postings.antt =====
-- What the publisher of internal/sms/adapters/rabbitmq/publisher.go promises, as the messages that
-- each queue is sent.
use sms_mno_gateway.Base.{ℕ, none, Str, List, [], ◌∷◌, ◌++◌, map, ◌≡◌}
use sms_mno_gateway.Domain.Message.{Message}
use sms_mno_gateway.Domain.Result.{BatchResult}
use sms_mno_gateway.Rabbitmq.Publisher.{Amqp, Body, single, batch, wire}
use sms_mno_gateway.Rabbitmq.Results.{Routes, messages_of, delay_queue}

-- A queue and a message that it was sent.
abbrev pub Posting : Type 0
Posting = Str × Message

abbrev pub postings : Str → List Message → List Posting
postings queue = map (λ m. (queue, wire m))

abbrev pub body_postings : Str → Body → List Posting
body_postings queue (single m) = (queue, m) ∷ []
body_postings queue (batch ms) = map (λ m. (queue, m)) ms

-- What the client library does: opening a channel publishes nothing, and a publish that returns no
-- error hands its body over, behind what was handed over before.
pub record IsLog {W : Type 0} (amqp : Amqp W) (log : W → List Posting) : Type 0 where
  pub opened : (w : W) → log (amqp.new_channel w).1 ≡ log w
  pub accepted :
      (ch : ℕ) (queue : Str) (body : Body) (w : W)
      → (amqp.publish_with_context ch queue body w).0 ≡ none
      → log (amqp.publish_with_context ch queue body w).1 ≡ log w ++ body_postings queue body

-- The promise of the publisher: a success is saved, a retryable result waits in the delay queue of
-- its kind, and a failure is dead-lettered and saved.
unfoldable pub expected : Routes → BatchResult → List Posting
expected c b =
    postings c.queues.save_to_db_queue (messages_of b.successful)
    ++ (map (λ m. (delay_queue c m, wire m)) (messages_of b.retryables)
        ++ (postings c.queues.dead_letter_queue (messages_of b.failed)
            ++ postings c.queues.save_to_db_queue (messages_of b.failed)))
