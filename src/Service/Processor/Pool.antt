-- ===== src/Service/Processor/Pool.antt =====
-- processRegular and worker of internal/sms/service/processor.go: the goroutines as a step relation.
-- One call of processMessage is one step. Both channels have room for every message, so a send on
-- them waits for nothing.
pub mod Account
pub mod Progress
pub mod Shutdown
use sms_mno_gateway.Base.{ℕ, zero, suc, Bool, true, false, List, [], ◌∷◌, ◌++◌, ◌≡◌, min, length}
use sms_mno_gateway.Domain.Message.{Message}
use sms_mno_gateway.Domain.Result.{SendResult, BatchResult, new_batch_result, add_results}
use sms_mno_gateway.Service.Processor.{Processor}
use sms_mno_gateway.Service.Processor.Single.{process_message}

-- `feed` is what the feeding goroutine still has to send, `feeding` whether it runs, `closed`
-- whether it has closed the channel `msgs`; `idle` counts the workers that wait in the first select,
-- `held` has the result of each worker that waits in the second one; `results` is what the collector
-- has read or can read; `cancelled` is `ctx.Done()`.
pub record PoolState (W : Type 0) : Type 0 where
  pub feed : List Message
  pub feeding : Bool
  pub closed : Bool
  pub msgs : List Message
  pub idle : ℕ
  pub held : List SendResult
  pub results : List SendResult
  pub cancelled : Bool
  pub world : W

module _ {W : Type 0} (p : Processor W) where
  unfoldable pub start : List Message → W → PoolState W
  start ms w = record {
    feed = ms;
    feeding = true;
    closed = false;
    msgs = [];
    idle = min p.worker_count (length ms);
    held = [];
    results = [];
    cancelled = false;
    world = w;
  }

  unfoldable pub take_message : PoolState W → ℕ → Message → List Message → PoolState W
  take_message s n m rest =
      let r = process_message p m s.world in
      record s { idle = n; msgs = rest; held = s.held ++ r.0 ∷ []; world = r.1 }

  -- What a goroutine of the pool can do next. A select with two ready cases takes either.
  pub data PoolStep : PoolState W → PoolState W → Type 0 where
    -- The feeder sends its next message, or closes the channel after the last one.
    put :
        (s : PoolState W) (m : Message) (ms : List Message)
        → s.feeding ≡ true
        → s.feed ≡ m ∷ ms
        → PoolStep s (record s { feed = ms; msgs = s.msgs ++ m ∷ [] })
    close :
        (s : PoolState W)
        → s.feeding ≡ true
        → s.feed ≡ []
        → PoolStep s (record s { feeding = false; closed = true })
    -- An idle worker receives the oldest message and processes it.
    take :
        (s : PoolState W) (n : ℕ) (m : Message) (ms : List Message)
        → s.idle ≡ suc n
        → s.msgs ≡ m ∷ ms
        → PoolStep s (take_message s n m ms)
    -- A worker hands its result over, and is idle again.
    deliver :
        (s : PoolState W) (xs : List SendResult) (r : SendResult) (ys : List SendResult)
        → s.held ≡ xs ++ (r ∷ ys)
        → PoolStep s
            (record s { held = xs ++ ys; results = s.results ++ r ∷ []; idle = suc s.idle })
    -- An idle worker finds the channel closed and drained, and ends.
    retire :
        (s : PoolState W) (n : ℕ)
        → s.idle ≡ suc n
        → s.closed ≡ true
        → s.msgs ≡ []
        → PoolStep s (record s { idle = n })
    -- The context ends. From then on the feeder may return without closing the channel, an idle
    -- worker may return, and a worker with a result may return without handing it over.
    cancel : (s : PoolState W) → s.cancelled ≡ false → PoolStep s (record s { cancelled = true })
    stop_feeding :
        (s : PoolState W)
        → s.cancelled ≡ true
        → s.feeding ≡ true
        → PoolStep s (record s { feeding = false })
    quit :
        (s : PoolState W) (n : ℕ)
        → s.cancelled ≡ true
        → s.idle ≡ suc n
        → PoolStep s (record s { idle = n })
    drop :
        (s : PoolState W) (xs : List SendResult) (r : SendResult) (ys : List SendResult)
        → s.cancelled ≡ true
        → s.held ≡ xs ++ (r ∷ ys)
        → PoolStep s (record s { held = xs ++ ys })

  pub data PoolRun (s : PoolState W) : PoolState W → Type 0 where
    here : PoolRun s s
    next : {t u : PoolState W} → PoolRun s t → PoolStep t u → PoolRun s u

-- No worker is left, so the results channel is closed and the collector returns.
pub record IsFinished {W : Type 0} (s : PoolState W) : Type 0 where
  pub none_idle : s.idle ≡ 0
  pub none_busy : s.held ≡ []

-- The value of processRegular.
unfoldable pub collected : {W : Type 0} → PoolState W → BatchResult
collected s = add_results s.results new_batch_result
