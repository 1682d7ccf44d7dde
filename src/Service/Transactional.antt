-- ===== src/Service/Transactional.antt =====
-- internal/sms/service/transactional_handler.go: the fast path of transactional messages.
pub mod Equivalence
pub mod Workers
pub mod Batches
pub mod Dedicated
use sms_mno_gateway.Base.{
  ℕ, ◌+◌, ◌-◌, ◌%◌, ◌^◌, ℤ, Bool, true, false, if◌then◌else◌, Option, none, some, List, [], ◌∷◌,
  ◌>>=◌, give, inl, inr, ◌⊎◌, leb_ℤ, pos, pos_part,
}
use sms_mno_gateway.Domain.Errors.{Error, sentinel, rate_limited, circuit_open}
use sms_mno_gateway.Domain.Message.{Message, validate, network, normalize_msisdn}
use sms_mno_gateway.Domain.Result.{
  SendResult, BatchResult, ResultType, success, retryable, permanent, new_retryable_result,
  new_permanent_result, new_batch_result, add_result,
}
use sms_mno_gateway.Ports.Senders.{MnoSender, MnoSenderFactory, Limiter}

-- `handle_batch_results` is the ResultHandler's; `clock` is time.Now. The counters `processed` and
-- `failed` are in `Counts`.
pub record TransactionalHandler (W : Type 0) : Type 0 where
  pub router : MnoSenderFactory W
  pub handle_batch_results : BatchResult → W → Option Error × W
  pub rate_limiter : Limiter W
  pub clock : W → ℕ × W
  pub worker_count : ℕ

-- The worker count of NewTransactionalHandler.
unfoldable pub dedicated_workers : ℤ → ℕ
dedicated_workers n = if leb_ℤ n (pos 0) then 5 else pos_part n

-- The two counters, which are uint64.
pub record Counts : Type 0 where
  pub processed : ℕ
  pub failed : ℕ

unfoldable pub is_failure : ResultType → Bool
is_failure success = false
is_failure retryable = true
is_failure permanent = true

unfoldable pub count : SendResult → Counts → Counts
unfolding is_failure
count r n = record {
  processed = (n.processed + 1) % 2 ^ 64;
  failed = if is_failure r.outcome then (n.failed + 1) % 2 ^ 64 else n.failed;
}

module _ {W : Type 0} (h : TransactionalHandler W) where
  unfoldable pub send : MnoSender W → Message → ℕ → W → SendResult × W
  send s m start = do
    healthy ← s.is_healthy
    if healthy then s.send m else do
      now ← h.clock
      give (new_retryable_result m (sentinel circuit_open) (now - start) now)

  unfoldable pub send_valid : Message → ℕ → W → SendResult × W
  unfolding send
  send_valid m start = do
    limited ← h.rate_limiter.wait (network m)
    elim limited [
      | some e ↦ do
        now ← h.clock
        give (new_retryable_result m (sentinel rate_limited) (now - start) now)
      | none ↦ elim (h.router.get_sender m) [
        | inr e ↦ do now ← h.clock; give (new_permanent_result m e (now - start) now)
        | inl s ↦ send s m start
      ]
    ]

  unfoldable pub send_normalized : Message → ℕ → W → SendResult × W
  unfolding send_valid
  send_normalized m start = elim (validate m) [
    | some e ↦ do now ← h.clock; give (new_permanent_result m e (now - start) now)
    | none ↦ send_valid m start
  ]

  unfoldable pub process_transactional : Message → W → SendResult × W
  unfolding send_normalized
  process_transactional m = do
    start ← h.clock
    send_normalized (record m { msisdn = normalize_msisdn m }) start

  -- processWork: the result goes to the result handler as a batch of its own.
  unfoldable pub process_work : Message → Counts × W → Option Error × (Counts × W)
  process_work m (n, w) =
      let r = process_transactional m w in
      let handled = h.handle_batch_results (add_result r.0 new_batch_result) r.1 in
      (handled.0, (count r.0 n, handled.1))
