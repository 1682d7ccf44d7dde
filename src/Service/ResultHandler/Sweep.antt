-- ===== src/Service/ResultHandler/Sweep.antt =====
-- The loop of HandleBatchResults against a description that filters.
use mathlib.Core.List.{append_assoc, append-nil, reverse-cons, map-append}
use sms_mno_gateway.Base.{
  not, List, [], ◌∷◌, ◌++◌, map, keep, reverse, ◌≡◌, refl, sym, ap, ◌∙◌, inl, inr, Bool-cases,
}
use sms_mno_gateway.Domain.Result.{SendResult}
use sms_mno_gateway.Service.ResultHandler.{RetryLimits, is_exhausted, give_up, sweep}

-- The loop of HandleBatchResults keeps the retryable results that are under their limit, in order,
-- and appends the others to the failures, last first and marked as exceeding the limit.
pub sweep_lem :
    (h : RetryLimits) (rs failed : List SendResult)
    → sweep h rs failed ≡ (
      keep (λ r. not (is_exhausted h r)) rs,
      failed ++ map give_up (reverse (keep (is_exhausted h) rs)),
    )
unfolding sweep keep
sweep_lem h [] failed = simp append-nil
sweep_lem h (r ∷ rs) failed = elim (Bool-cases (is_exhausted h r)) [
  | inl over ↦
      rw (over, sweep_lem h rs failed)
        (ap (λ k. (keep (λ x. not (is_exhausted h x)) rs, k))
          (append_assoc failed _ _
            ∙ ap (λ k. failed ++ k)
                (sym (map-append give_up (reverse (keep (is_exhausted h) rs)) (r ∷ []))
                  ∙ ap (map give_up) (sym (reverse-cons r (keep (is_exhausted h) rs))))))
  | inr under ↦ rw (under, sweep_lem h rs failed) refl
]
