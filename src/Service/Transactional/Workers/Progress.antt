-- ===== src/Service/Transactional/Workers/Progress.antt =====
-- The workers of ProcessBatch (internal/sms/service/transactional_handler.go) come to an end.
use sms_mno_gateway.Base.{
  ℕ, zero, suc, ◌+◌, ◌*◌, ◌<◌, List, [], ◌∷◌, ◌≡◌, ◌⊎◌, inl, inr, length, refl, ap, arith,
  length-append,
}
use sms_mno_gateway.Domain.Message.{Message}
use sms_mno_gateway.Domain.Result.{SendResult}
use sms_mno_gateway.Service.Transactional.{TransactionalHandler, process_transactional}
use sms_mno_gateway.Service.Transactional.Workers.{
  BatchState, take_one, BatchStep, take, deliver, retire, HasEnded,
}

pub left_over : {W : Type 0} → BatchState W → ℕ
left_over s = 2 * length s.msgs + s.idle + 2 * length s.held

module _ {W : Type 0} (h : TransactionalHandler W) where
  step-left_over : {s t : BatchState W} → BatchStep h s t → left_over t < left_over s
  unfolding left_over take_one
  step-left_over {s} (take n m ms i e) = ground (
    arith,
    length-append s.held ((process_transactional h m s.world).0 ∷ []),
    ap (length {A = Message}) e,
  )
  step-left_over {s} (deliver xs r ys e) =
      ground (arith, length-append xs (r ∷ ys), length-append xs ys, ap (length {A = SendResult}) e)
  step-left_over {s} (retire n i e) = ground arith

  some_step :
      (s : BatchState W) (n : ℕ) (hs : List SendResult) (ms : List Message)
      → s.idle ≡ n
      → s.held ≡ hs
      → s.msgs ≡ ms
      → HasEnded s ⊎ ((t : BatchState W) × BatchStep h s t)
  some_step s n (r ∷ hs) ms i e f = inr (_, deliver [] r hs e)
  some_step s zero [] ms i e f = inl (record { none_idle = i; none_busy = e })
  some_step s (suc n) [] [] i e f = inr (_, retire n i f)
  some_step s (suc n) [] (m ∷ ms) i e f = inr (_, take n m ms i f)

  -- The workers of a batch are never stuck and never run forever: in any state of a batch they have
  -- ended or a step is possible, and every step makes the work that is left over smaller.
  pub batch_ends :
      (s : BatchState W)
      → (HasEnded s ⊎ ((t : BatchState W) × BatchStep h s t))
        × ((t : BatchState W) → BatchStep h s t → left_over t < left_over s)
  batch_ends s = (some_step s s.idle s.held s.msgs refl refl refl, λ t st. step-left_over st)
