-- ===== src/Service/Processor/Pool/Shutdown.antt =====
-- What a shutdown can do to a delivery that is being processed.
use sms_mno_gateway.Base.{
  ℕ, zero, suc, true, false, none, List, [], ◌≡◌, ◌≢◌, ◌≤◌, min, length, refl, is_empty-false,
  le→leb,
}
use sms_mno_gateway.Domain.Message.{Message}
use sms_mno_gateway.Domain.Result.{new_batch_result, add_results}
use sms_mno_gateway.Ports.Queues.{Delivery}
use sms_mno_gateway.Service.Processor.{Processor}
use sms_mno_gateway.Service.Processor.Batch.{process_delivery, process_batch, answer}
use sms_mno_gateway.Service.Processor.Pool.{
  PoolState, start, cancel, stop_feeding, quit, PoolRun, here, next, IsFinished, collected,
}

module _ {W : Type 0} (p : Processor W) where
  shutting_down : List Message → W → ℕ → PoolState W
  shutting_down ms w n = record {
    feed = ms;
    feeding = false;
    closed = false;
    msgs = [];
    idle = n;
    held = [];
    results = [];
    cancelled = true;
    world = w;
  }

  quit_all :
      (ms : List Message) (w : W) (n : ℕ)
      → PoolRun p (start p ms w) (shutting_down ms w n)
      → PoolRun p (start p ms w) (shutting_down ms w 0)
  unfolding shutting_down
  quit_all ms w zero r = r
  quit_all ms w (suc n) r = quit_all ms w n (next r (quit (shutting_down ms w (suc n)) n refl refl))

  -- The context ends before a message is taken, and all goroutines return.
  shutdown_run : (ms : List Message) (w : W) → PoolRun p (start p ms w) (shutting_down ms w 0)
  unfolding shutting_down start
  shutdown_run ms w = quit_all ms w (min p.worker_count (length ms)) (
      next (next here (cancel (start p ms w) refl))
        (stop_feeding (record (start p ms w) { cancelled = true }) refl refl))

  -- Every delivery of at least one message, to a processor without SDP batches, can be acknowledged
  -- with no message sent, saved, retried or dead-lettered: if the context ends early, the worker pool
  -- has a run that ends with an empty batch result, and if handling that result returns no error,
  -- ProcessDelivery acknowledges the delivery.
  pub shutdown_acks_unsent :
      (d : Delivery W) (w : W)
      → d.messages ≢ []
      → p.sdp_batch_size ≤ 1
      → (p.handle_batch_results new_batch_result w).0 ≡ none
      → (s : PoolState W) × PoolRun p (start p d.messages w) s
        × IsFinished s
        × (process_delivery p (λ ms v. (collected s, s.world)) d w
            ≡ d.ack (p.handle_batch_results new_batch_result w).1)
  unfolding shutting_down collected add_results process_delivery process_batch answer
  shutdown_acks_unsent d w some_message no_batches handled = (
    shutting_down d.messages w 0,
    shutdown_run d.messages w,
    record { none_idle = refl; none_busy = refl },
    rw (is_empty-false d.messages some_message, le→leb p.sdp_batch_size 1 no_batches)
        (rw handled refl),
  )
