-- ===== src/Bootstrap/Batching.antt =====
-- accumulateBatch and the SDP batching processors of Start in internal/bootstrap/app.go.
pub mod Batches
pub mod Rounds
use sms_mno_gateway.Base.{
  ℕ, zero, suc, ltb, leb, Bool, true, false, not, ◌&&◌, if◌then◌else◌, Option, none, some, Str,
  List, [], ◌∷◌, ◌++◌, is_empty, length, lookup, or_else, ◌>>=◌, give,
}
use sms_mno_gateway.Domain.Errors.{Error}
use sms_mno_gateway.Domain.Message.{Message}
use sms_mno_gateway.Ports.Queues.{Delivery}
use sms_mno_gateway.Service.Processor.{Processor}
use sms_mno_gateway.Service.Processor.Batch.{Regular, process_messages}

-- processorFor.
unfoldable pub processor_for :
    {W : Type 0} → List (Str × Processor W) → Processor W → Str → Processor W
unfolding lookup
processor_for queue_processors default_processor queue_name =
    or_else (lookup queue_name queue_processors) default_processor

-- What a receive on the channel of deliveries meets: a delivery, the closed channel, nothing at the
-- time, or, where the context is asked as well, its end.
pub data Offer (W : Type 0) : Type 0 where
  offered : Delivery W → Offer W
  channel_closed nothing context_done : Offer W

-- The messages and the deliveries of a batch, and what later receives meet.
pub record Accumulated (W : Type 0) : Type 0 where
  pub msgs : List Message
  pub batch : List (Delivery W)
  pub later : List (Offer W)

module _ {W : Type 0} where
  -- The second loop, which asks only the channel and only while there is room.
  unfoldable pub drain_more : ℕ → List Message → List (Delivery W) → List (Offer W) → Accumulated W
  drain_more max_msgs msgs batch [] = record { msgs = msgs; batch = batch; later = [] }
  drain_more max_msgs msgs batch (offered d ∷ rest) =
      let more = drain_more max_msgs (msgs ++ d.messages) (batch ++ (d ∷ [])) rest in
      let full : Accumulated W = record { msgs = msgs; batch = batch; later = offered d ∷ rest } in
      if ltb (length msgs) max_msgs then more else full
  drain_more max_msgs msgs batch (channel_closed ∷ rest) = record {
    msgs = msgs;
    batch = batch;
    later = channel_closed ∷ rest;
  }
  drain_more max_msgs msgs batch (nothing ∷ rest) = record {
    msgs = msgs;
    batch = batch;
    later = if ltb (length msgs) max_msgs then rest else nothing ∷ rest;
  }
  drain_more max_msgs msgs batch (context_done ∷ rest) = record {
    msgs = msgs;
    batch = batch;
    later = context_done ∷ rest;
  }

  -- The first receive waits for a delivery.
  unfoldable pub accumulate_batch : ℕ → List (Offer W) → Accumulated W
  unfolding drain_more
  accumulate_batch max_msgs [] = record { msgs = []; batch = []; later = [] }
  accumulate_batch max_msgs (offered d ∷ rest) = drain_more max_msgs d.messages (d ∷ []) rest
  accumulate_batch max_msgs (nothing ∷ rest) = accumulate_batch max_msgs rest
  accumulate_batch max_msgs (channel_closed ∷ rest) = record {
    msgs = [];
    batch = [];
    later = channel_closed ∷ rest;
  }
  accumulate_batch max_msgs (context_done ∷ rest) = record {
    msgs = [];
    batch = [];
    later = context_done ∷ rest;
  }

  unfoldable pub nack_all : List (Delivery W) → W → W
  nack_all [] w = w
  nack_all (d ∷ ds) w = nack_all ds (d.nack true w).1

  unfoldable pub ack_all : List (Delivery W) → W → W
  ack_all [] w = w
  ack_all (d ∷ ds) w = ack_all ds (d.ack w).1

  unfoldable pub settle_batch : Option Error → List (Delivery W) → W → W
  unfolding nack_all ack_all
  settle_batch (some e) = nack_all
  settle_batch none = ack_all

  module _ (p : Processor W) (regular : Regular W) where
    -- One round of the goroutine for a batch that is not empty.
    unfoldable pub process_accumulated : Accumulated W → W → W
    unfolding settle_batch
    process_accumulated a w =
        let r = process_messages p regular a.msgs w in settle_batch r.0.1 a.batch r.1

    -- Where the offers have ended without a delivery, the first receive still waits.
    is_blocked : Accumulated W → Bool
    is_blocked a = is_empty a.batch && is_empty a.later

    -- The goroutine, for so many rounds: whether it has returned, and the world that it leaves.
    unfoldable pub batching_worker : ℕ → ℕ → List (Offer W) → W → Bool × W
    unfolding accumulate_batch process_accumulated is_blocked
    batching_worker batch_size zero offers w = (false, w)
    batching_worker batch_size (suc rounds) offers w =
        let a = accumulate_batch batch_size offers in
        let next = batching_worker batch_size rounds a.later (process_accumulated a w) in
        if is_empty a.msgs then (not (is_blocked a), w) else next
