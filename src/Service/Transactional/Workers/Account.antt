-- ===== src/Service/Transactional/Workers/Account.antt =====
-- What the workers of ProcessBatch (internal/sms/service/transactional_handler.go) make of a batch.
use mathlib.Core.List.{append_assoc, append-nil, map-append, perm_middle}
use mathlib.Core.List.Perm
use sms_mno_gateway.Base.{
  ℕ, suc, ◌+◌, ◌<◌, List, [], ◌∷◌, ◌++◌, ◌≡◌, ◌⊎◌, inl, inr, min, length, map, Perm, arith,
  length-append, left_nil,
}
use sms_mno_gateway.Domain.Message.{Message, normalize_msisdn}
use sms_mno_gateway.Domain.Result.{SendResult, new_batch_result}
use sms_mno_gateway.Domain.Outcome.{origin}
use sms_mno_gateway.Domain.Batch.{
  IsSorted, origins, origin_of, add_results-IsSorted, add_results-origins,
  new_batch_result-IsSorted, new_batch_result-origins,
}
use sms_mno_gateway.Ports.Senders.{IsFaithfulFactory}
use sms_mno_gateway.Service.Transactional.{TransactionalHandler, Counts, process_transactional}
use sms_mno_gateway.Service.Transactional.Equivalence.{process_transactional-IsResultOf}
use sms_mno_gateway.Service.Transactional.Workers.{
  BatchState, fill, take_one, BatchStep, take, deliver, retire, BatchRun, here, next, HasEnded,
  gathered,
}

-- The message with its number normalised, without the record of its sending.
abbrev pub sent_as : Message → Message
sent_as m = origin (record m { msisdn = normalize_msisdn m })

pub within : {W : Type 0} → BatchState W → List Message
within s = map origin_of s.results ++ (map origin_of s.held ++ map sent_as s.msgs)

-- Each message is in one place, and while a worker is missing the channel is drained.
record Inv {W : Type 0} (ms : List Message) (workers : ℕ) (s : BatchState W) : Type 0 where
  all_within : Perm (within s) (map sent_as ms)
  missing : (s.idle + length s.held ≡ workers) ⊎ (s.msgs ≡ [])

module _ {W : Type 0} (h : TransactionalHandler W) (faithful : IsFaithfulFactory h.router) where
  take-within :
      (s : BatchState W) (n : ℕ) (m : Message) (ms : List Message)
      → s.msgs ≡ m ∷ ms
      → within (take_one h s n m ms) ≡ within s
  unfolding within take_one
  take-within s n m ms e =
      simp
        (e, map-append, append_assoc, (process_transactional-IsResultOf h m s.world faithful).same)

  deliver-within :
      (s : BatchState W) (xs : List SendResult) (r : SendResult) (ys : List SendResult) (k : ℕ)
      → s.held ≡ xs ++ (r ∷ ys)
      → Perm
          (within (record s { held = xs ++ ys; results = s.results ++ r ∷ []; idle = k }))
          (within s)
  unfolding within
  deliver-within s xs r ys k e =
      simp (e, map-append, append_assoc)
        (Perm.append_left (map origin_of s.results)
          (Perm.symm (perm_middle (map origin_of xs) (map origin_of ys ++ map sent_as s.msgs))))

  step-Inv :
      {s t : BatchState W} (ms : List Message) (workers : ℕ)
      → BatchStep h s t
      → Inv ms workers s
      → Inv ms workers t
  unfolding within take_one
  step-Inv {s} ms workers (take n m rest i e) v = record {
    all_within = rw (take-within s n m rest e) v.all_within;
    missing = ground (arith, length-append s.held ((process_transactional h m s.world).0 ∷ []));
  }
  step-Inv {s} ms workers (deliver xs r ys e) v = record {
    all_within = Perm.trans (deliver-within s xs r ys (suc s.idle) e) v.all_within;
    missing = ground (arith, length-append xs (r ∷ ys), length-append xs ys);
  }
  step-Inv {s} ms workers (retire n i e) v = record { all_within = v.all_within; missing = inr e }

  run-Inv :
      (ms : List Message) (n : Counts) (w : W) {s : BatchState W}
      → BatchRun h (fill h ms n w) s
      → Inv ms (min h.worker_count (length ms)) s
  unfolding fill within
  run-Inv ms n w here = record { all_within = Perm.rfl; missing = inl (omega arith) }
  run-Inv ms n w (next r st) = step-Inv ms _ st (run-Inv ms n w r)

  ended-results :
      (ms : List Message) (s : BatchState W)
      → 0 < h.worker_count
      → Inv ms (min h.worker_count (length ms)) s
      → HasEnded s
      → Perm (map origin_of s.results) (map sent_as ms)
  unfolding within
  ended-results [] s some_worker v f =
      rw (left_nil (map origin_of s.results) _ (Perm.eq-nil v.all_within)) Perm.nil
  ended-results (m ∷ ms) s some_worker v f =
      let drained : s.msgs ≡ [] = ground (arith, f.none_busy) in
      (simp (drained, f.none_busy, append-nil) at v.all_within)

  -- With at least one worker and senders whose results are about their messages: when the workers of
  -- a batch have ended, in whatever order they ran, its result is sorted and has exactly one result
  -- for each message, whose number is normalised.
  pub batch_complete :
      (ms : List Message) (n : Counts) (w : W) (s : BatchState W)
      → 0 < h.worker_count
      → BatchRun h (fill h ms n w) s
      → HasEnded s
      → IsSorted (gathered s) × Perm (origins (gathered s)) (map sent_as ms)
  unfolding gathered
  batch_complete ms n w s some_worker run f = (
    add_results-IsSorted s.results new_batch_result new_batch_result-IsSorted,
    Perm.trans
        (rw (new_batch_result-origins, append-nil (map origin_of s.results)) at
          (add_results-origins s.results new_batch_result))
        (ended-results ms s some_worker (run-Inv ms n w run) f),
  )
