-- ===== src/Service/Transactional/Batches.antt =====
-- ProcessBatch of internal/sms/service/transactional_handler.go, given how its workers end.
use sms_mno_gateway.Base.{if◌then◌else◌, List, is_empty}
use sms_mno_gateway.Domain.Message.{Message}
use sms_mno_gateway.Domain.Result.{BatchResult, new_batch_result}
use sms_mno_gateway.Service.Transactional.{TransactionalHandler, Counts}
use sms_mno_gateway.Service.Transactional.Workers.{BatchState, gathered}

-- The result of a batch whose workers leave the state `s`; an error of the result handler only goes
-- to the log.
module _ {W : Type 0} (h : TransactionalHandler W) where
  unfoldable pub finish_batch : BatchState W → BatchResult × (Counts × W)
  finish_batch s = (gathered s, (s.counts, (h.handle_batch_results (gathered s) s.world).1))

  -- `work` is what the workers make of the messages.
  unfoldable pub process_transactional_batch :
      (List Message → Counts → W → BatchState W)
      → List Message
      → Counts × W
      → BatchResult × (Counts × W)
  unfolding finish_batch
  process_transactional_batch work ms (n, w) =
      if is_empty ms then (new_batch_result, (n, w)) else finish_batch (work ms n w)
