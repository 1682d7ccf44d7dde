-- ===== src/Service/Processor/Pool/Account.antt =====
-- Where each message of a pool that is not cancelled is.
use mathlib.Core.List.{append_assoc, append-nil, map-append, perm_middle}
use mathlib.Core.List.Perm
use sms_mno_gateway.Base.{
  ℕ, suc, ◌+◌, ◌<◌, true, false, List, [], ◌∷◌, ◌++◌, ◌≡◌, ◌⊎◌, inl, inr, min, length, map, Perm,
  refl, sym, ◌∙◌, arith, length-append, left_nil,
}
use sms_mno_gateway.Domain.Message.{Message}
use sms_mno_gateway.Domain.Result.{SendResult, new_batch_result}
use sms_mno_gateway.Domain.Outcome.{origin}
use sms_mno_gateway.Domain.Batch.{
  IsSorted, origins, origin_of, add_results-IsSorted, add_results-origins,
  new_batch_result-IsSorted, new_batch_result-origins,
}
use sms_mno_gateway.Ports.Senders.{IsFaithfulFactory}
use sms_mno_gateway.Service.Processor.{Processor}
use sms_mno_gateway.Service.Processor.Single.{process_message}
use sms_mno_gateway.Service.Processor.Checked.{process_message-IsResultOf}
use sms_mno_gateway.Service.Processor.Pool.{
  PoolState, start, take_message, PoolStep, put, close, take, deliver, retire, cancel, stop_feeding,
  quit, drop, PoolRun, here, next, IsFinished, collected,
}

-- The messages in the pool, wherever they are.
pub inside : {W : Type 0} → PoolState W → List Message
inside s =
    map origin_of s.results ++ (map origin_of s.held ++ (map origin s.msgs ++ map origin s.feed))

-- Each message of the batch is in one place; while a worker is missing the channel has been closed
-- and drained, and it is closed only when all messages have been sent on it.
pub record Inv {W : Type 0} (ms : List Message) (workers : ℕ) (s : PoolState W) : Type 0 where
  pub all_inside : Perm (inside s) (map origin ms)
  pub closed_fed : s.closed ≡ true → s.feed ≡ []
  pub still_feeding : s.closed ≡ false → s.feeding ≡ true
  pub missing : (s.idle + length s.held ≡ workers) ⊎ ((s.closed ≡ true) × (s.msgs ≡ []))

module _ {W : Type 0} (p : Processor W) (faithful : IsFaithfulFactory p.router) where
  put-inside :
      (s : PoolState W) (m : Message) (ms : List Message)
      → s.feed ≡ m ∷ ms
      → inside (record s { feed = ms; msgs = s.msgs ++ m ∷ [] }) ≡ inside s
  unfolding inside
  put-inside s m ms e = simp (e, map-append, append_assoc)

  take-inside :
      (s : PoolState W) (n : ℕ) (m : Message) (ms : List Message)
      → s.msgs ≡ m ∷ ms
      → inside (take_message p s n m ms) ≡ inside s
  unfolding inside take_message
  take-inside s n m ms e =
      simp (e, map-append, append_assoc, (process_message-IsResultOf p faithful m s.world).same)

  deliver-inside :
      (s : PoolState W) (xs : List SendResult) (r : SendResult) (ys : List SendResult) (k : ℕ)
      → s.held ≡ xs ++ (r ∷ ys)
      → Perm
          (inside (record s { held = xs ++ ys; results = s.results ++ r ∷ []; idle = k }))
          (inside s)
  unfolding inside
  deliver-inside s xs r ys k e =
      simp (e, map-append, append_assoc)
        (Perm.append_left (map origin_of s.results) (
          Perm.symm (
            perm_middle (map origin_of xs)
              (map origin_of ys ++ (map origin s.msgs ++ map origin s.feed)))))

  length-without :
      (xs : List SendResult) (r : SendResult) (ys : List SendResult)
      → length (xs ++ (r ∷ ys)) ≡ suc (length (xs ++ ys))
  length-without xs r ys = omega (arith, length-append xs (r ∷ ys), length-append xs ys)

  step-Inv :
      {s t : PoolState W} (ms : List Message) (workers : ℕ)
      → PoolStep p s t
      → t.cancelled ≡ false
      → Inv ms workers s
      → Inv ms workers t
  unfolding inside take_message
  step-Inv ms workers (put s m rest f e) live v = record {
    all_inside = rw (put-inside s m rest e) v.all_inside;
    closed_fed = λ c. absurd (cc (sym (v.closed_fed c) ∙ e));
    still_feeding = v.still_feeding;
    missing = ground arith;
  }
  step-Inv ms workers (close s f e) live v = record {
    all_inside = v.all_inside;
    closed_fed = λ _. e;
    still_feeding = λ c. cc;
    missing = ground arith;
  }
  step-Inv ms workers (take s n m rest i e) live v = record {
    all_inside = rw (take-inside s n m rest e) v.all_inside;
    closed_fed = v.closed_fed;
    still_feeding = v.still_feeding;
    missing = ground (arith, length-append s.held ((process_message p m s.world).0 ∷ []));
  }
  step-Inv ms workers (deliver s xs r ys e) live v = record {
    all_inside = Perm.trans (deliver-inside s xs r ys (suc s.idle) e) v.all_inside;
    closed_fed = v.closed_fed;
    still_feeding = v.still_feeding;
    missing = ground (arith, length-without xs r ys);
  }
  step-Inv ms workers (retire s n i c e) live v = record {
    all_inside = v.all_inside;
    closed_fed = v.closed_fed;
    still_feeding = v.still_feeding;
    missing = inr (c, e);
  }
  step-Inv ms workers (cancel s c) live v = absurd (cc live)
  step-Inv ms workers (stop_feeding s c f) live v = absurd (cc (sym c ∙ live))
  step-Inv ms workers (quit s n c i) live v = absurd (cc (sym c ∙ live))
  step-Inv ms workers (drop s xs r ys c e) live v = absurd (cc (sym c ∙ live))

  was_live : {s t : PoolState W} → PoolStep p s t → t.cancelled ≡ false → s.cancelled ≡ false
  unfolding take_message
  was_live (put s m rest f e) live = live
  was_live (close s f e) live = live
  was_live (take s n m rest i e) live = live
  was_live (deliver s xs r ys e) live = live
  was_live (retire s n i c e) live = live
  was_live (cancel s c) live = c
  was_live (stop_feeding s c f) live = live
  was_live (quit s n c i) live = live
  was_live (drop s xs r ys c e) live = live

  start-Inv : (ms : List Message) (w : W) → Inv ms (min p.worker_count (length ms)) (start p ms w)
  unfolding start inside
  start-Inv ms w = record {
    all_inside = Perm.rfl;
    closed_fed = λ c. cc;
    still_feeding = λ c. refl;
    missing = inl (omega arith);
  }

  pub run-Inv :
      (ms : List Message) (w : W) {s : PoolState W}
      → PoolRun p (start p ms w) s
      → s.cancelled ≡ false
      → Inv ms (min p.worker_count (length ms)) s
  run-Inv ms w here live = start-Inv ms w
  run-Inv ms w (next r st) live = step-Inv ms _ st live (run-Inv ms w r (was_live st live))

  finished-results :
      (ms : List Message) (s : PoolState W)
      → 0 < p.worker_count
      → Inv ms (min p.worker_count (length ms)) s
      → IsFinished s
      → Perm (map origin_of s.results) (map origin ms)
  unfolding inside
  finished-results [] s some_worker v f =
      rw (left_nil (map origin_of s.results) _ (Perm.eq-nil v.all_inside)) Perm.nil
  finished-results (m ∷ ms) s some_worker v f =
      let drained : (s.msgs ≡ []) × (s.feed ≡ []) = ground (arith, f.none_busy) in
      (simp (drained.0, drained.1, f.none_busy, append-nil) at v.all_inside)

  -- With at least one worker and senders whose results are about their messages: whenever the pool
  -- has finished and its context has not ended, in whatever order the goroutines ran, the batch
  -- result is sorted and has exactly one result for each message.
  pub pool_complete :
      (ms : List Message) (w : W) (s : PoolState W)
      → 0 < p.worker_count
      → PoolRun p (start p ms w) s
      → s.cancelled ≡ false
      → IsFinished s
      → IsSorted (collected s) × Perm (origins (collected s)) (map origin ms)
  unfolding collected
  pool_complete ms w s some_worker run live f = (
    add_results-IsSorted s.results new_batch_result new_batch_result-IsSorted,
    Perm.trans
        (rw (new_batch_result-origins, append-nil (map origin_of s.results)) at
          (add_results-origins s.results new_batch_result))
        (finished-results ms s some_worker (run-Inv ms w run live) f),
  )
