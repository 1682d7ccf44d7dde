-- ===== src/Service/Transactional/Workers.antt =====
-- The workers of ProcessBatch in internal/sms/service/transactional_handler.go as a step relation.
-- The channel of messages is filled and closed before they start, and the channel of results has
-- room for all of them.
pub mod Account
pub mod Progress
use sms_mno_gateway.Base.{ℕ, suc, List, [], ◌∷◌, ◌++◌, ◌≡◌, min, length}
use sms_mno_gateway.Domain.Message.{Message}
use sms_mno_gateway.Domain.Result.{SendResult, BatchResult, new_batch_result, add_results}
use sms_mno_gateway.Service.Transactional.{
  TransactionalHandler, Counts, count, process_transactional,
}

-- `held` has the result of each worker that is about to hand it over.
pub record BatchState (W : Type 0) : Type 0 where
  pub msgs : List Message
  pub idle : ℕ
  pub held : List SendResult
  pub results : List SendResult
  pub counts : Counts
  pub world : W

module _ {W : Type 0} (h : TransactionalHandler W) where
  unfoldable pub fill : List Message → Counts → W → BatchState W
  fill ms n w = record {
    msgs = ms;
    idle = min h.worker_count (length ms);
    held = [];
    results = [];
    counts = n;
    world = w;
  }

  unfoldable pub take_one : BatchState W → ℕ → Message → List Message → BatchState W
  take_one s n m rest =
      let r = process_transactional h m s.world in
      record s {
        idle = n;
        msgs = rest;
        held = s.held ++ r.0 ∷ [];
        counts = count r.0 s.counts;
        world = r.1;
      }

  pub data BatchStep (s : BatchState W) : BatchState W → Type 0 where
    take :
        (n : ℕ) (m : Message) (ms : List Message)
        → s.idle ≡ suc n
        → s.msgs ≡ m ∷ ms
        → BatchStep s (take_one s n m ms)
    deliver :
        (xs : List SendResult) (r : SendResult) (ys : List SendResult)
        → s.held ≡ xs ++ (r ∷ ys)
        → BatchStep s
            (record s { held = xs ++ ys; results = s.results ++ r ∷ []; idle = suc s.idle })
    retire : (n : ℕ) → s.idle ≡ suc n → s.msgs ≡ [] → BatchStep s (record s { idle = n })

  pub data BatchRun (s : BatchState W) : BatchState W → Type 0 where
    here : BatchRun s s
    next : {t u : BatchState W} → BatchRun s t → BatchStep t u → BatchRun s u

-- All workers have ended, and so does the collector.
pub record HasEnded {W : Type 0} (s : BatchState W) : Type 0 where
  pub none_idle : s.idle ≡ 0
  pub none_busy : s.held ≡ []

unfoldable pub gathered : {W : Type 0} → BatchState W → BatchResult
gathered s = add_results s.results new_batch_result
