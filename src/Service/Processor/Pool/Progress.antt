-- ===== src/Service/Processor/Pool/Progress.antt =====
-- The worker pool always comes to an end.
use sms_mno_gateway.Base.{
  ℕ, zero, suc, ◌+◌, ◌-◌, ◌*◌, ◌≤◌, ◌<◌, Bool, true, false, List, [], ◌∷◌, ◌≡◌, ◌⊎◌, inl, inr, min,
  length, refl, ap, arith, length-append, Bool-cases,
}
use sms_mno_gateway.Domain.Message.{Message}
use sms_mno_gateway.Domain.Result.{SendResult}
use sms_mno_gateway.Service.Processor.{Processor}
use sms_mno_gateway.Service.Processor.Single.{process_message}
use sms_mno_gateway.Service.Processor.Pool.{
  PoolState, start, take_message, PoolStep, put, close, take, deliver, retire, cancel, stop_feeding,
  quit, drop, PoolRun, here, next, IsFinished,
}
use sms_mno_gateway.Service.Processor.Pool.Account.{run-Inv}
use sms_mno_gateway.Ports.Senders.{IsFaithfulFactory}

abbrev flag : Bool → ℕ
flag true = 1
flag false = 0

-- What is still to be done.
pub work_left : {W : Type 0} → PoolState W → ℕ
work_left s =
    3 * length s.feed
    + flag s.feeding
    + 2 * length s.msgs
    + s.idle
    + 2 * length s.held
    + (1 - flag s.cancelled)

module _ {W : Type 0} (p : Processor W) where
  -- Every step of a pool, also after its context has ended, leaves less to do.
  pub step-work_left : {s t : PoolState W} → PoolStep p s t → work_left t < work_left s
  unfolding work_left take_message
  step-work_left (put s m rest f e) =
      ground (arith, length-append s.msgs (m ∷ []), ap (length {A = Message}) e)
  step-work_left (close s f e) = ground arith
  step-work_left (take s n m rest i e) = ground (
    arith,
    length-append s.held ((process_message p m s.world).0 ∷ []),
    ap (length {A = Message}) e,
  )
  step-work_left (deliver s xs r ys e) =
      ground (arith, length-append xs (r ∷ ys), length-append xs ys, ap (length {A = SendResult}) e)
  step-work_left (retire s n i c e) = ground arith
  step-work_left (cancel s c) = ground arith
  step-work_left (stop_feeding s c f) = ground arith
  step-work_left (quit s n c i) = ground arith
  step-work_left (drop s xs r ys c e) =
      ground (arith, length-append xs (r ∷ ys), length-append xs ys, ap (length {A = SendResult}) e)

  feeder_steps :
      (s : PoolState W)
      → s.feeding ≡ true
      → (fs : List Message) → s.feed ≡ fs
      → (t : PoolState W) × PoolStep p s t
  feeder_steps s f [] e = (_, close s f e)
  feeder_steps s f (m ∷ ms) e = (_, put s m ms f e)

  idle_steps :
      (s : PoolState W) (n : ℕ)
      → s.idle ≡ suc n
      → s.closed ≡ true
      → (ms : List Message) → s.msgs ≡ ms
      → (t : PoolState W) × PoolStep p s t
  idle_steps s n i c [] e = (_, retire s n i c e)
  idle_steps s n i c (m ∷ ms) e = (_, take s n m ms i e)

  worker_steps :
      (s : PoolState W)
      → s.closed ≡ true
      → (n : ℕ) → s.idle ≡ n
      → (hs : List SendResult) → s.held ≡ hs
      → (IsFinished s) ⊎ ((t : PoolState W) × PoolStep p s t)
  worker_steps s c n i (r ∷ hs) e = inr (_, deliver s [] r hs e)
  worker_steps s c zero i [] e = inl (record { none_idle = i; none_busy = e })
  worker_steps s c (suc n) i [] e = inr (idle_steps s n i c s.msgs refl)

  start_work :
      (ms : List Message) (w : W)
      → work_left (start p ms w) ≡ 3 * length ms + min p.worker_count (length ms) + 2
  unfolding start work_left
  start_work ms w = omega arith

  pub run_length : {s t : PoolState W} → PoolRun p s t → ℕ
  run_length here = 0
  run_length (next r st) = suc (run_length r)

  run-work_left : {s t : PoolState W} (r : PoolRun p s t) → run_length r + work_left t ≤ work_left s
  unfolding run_length
  run-work_left here = omega arith
  run-work_left (next r st) = omega (arith, run-work_left r, step-work_left st)

  -- A pool makes at most three steps for each message, one for each worker and two more, whether its
  -- context ends or not.
  pub pool_run_bound :
      (ms : List Message) (w : W) (t : PoolState W) (r : PoolRun p (start p ms w) t)
      → run_length r ≤ 3 * length ms + min p.worker_count (length ms) + 2
  pool_run_bound ms w t r = omega (arith, run-work_left r, start_work ms w)

  -- With senders whose results are about their messages: while its context has not ended, a pool is
  -- never stuck, which means that it has finished or a step is possible.
  pub pool_progress :
      (ms : List Message) (w : W) (s : PoolState W)
      → IsFaithfulFactory p.router
      → PoolRun p (start p ms w) s
      → s.cancelled ≡ false
      → IsFinished s ⊎ ((t : PoolState W) × PoolStep p s t)
  pool_progress ms w s law r live =
      let v = run-Inv p law ms w r live in
      elim (Bool-cases s.closed) [
        | inl c ↦ worker_steps s c s.idle refl s.held refl
        | inr c ↦ inr (feeder_steps s (v.still_feeding c) s.feed refl)
      ]
