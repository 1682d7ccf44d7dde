-- ===== src/Service/ResultHandler/Kept.antt =====
-- What HandleBatchResults of internal/sms/service/result_handler.go does to a sorted batch result.
use mathlib.Core.List.{append_assoc, map-append, perm_append_comm}
use mathlib.Core.List.Perm
use sms_mno_gateway.Base.{
  ◌+◌, List, [], ◌∷◌, ◌++◌, map, length, All, All-append, ◌≡◌, refl, Perm, arith, length-append,
  Bool-cases, inl, inr,
}
use sms_mno_gateway.Domain.Message.{set_error}
use sms_mno_gateway.Domain.Result.{SendResult, BatchResult, retryable, permanent}
use sms_mno_gateway.Domain.Outcome.{origin}
use sms_mno_gateway.Domain.Batch.{IsSorted, everything, origin_of, origins}
use sms_mno_gateway.Service.ResultHandler.{RetryLimits, is_exhausted, give_up, sweep, swept}

abbrev IsRetry : SendResult → Type 0
IsRetry r = r.outcome ≡ retryable

abbrev IsFailure : SendResult → Type 0
IsFailure r = r.outcome ≡ permanent

-- What a sweep of `rs` into `failed` leaves.
record Swept (rs failed : List SendResult) (s : List SendResult × List SendResult) : Type 0 where
  kept : All IsRetry s.0
  moved : All IsFailure s.1
  counted : length s.0 + length s.1 ≡ length rs + length failed
  same : Perm (map origin_of s.0 ++ map origin_of s.1) (map origin_of rs ++ map origin_of failed)

module _ (h : RetryLimits) where
  sweep-Swept :
      (rs failed : List SendResult)
      → All IsRetry rs
      → All IsFailure failed
      → Swept rs failed (sweep h rs failed)
  unfolding sweep give_up set_error origin
  sweep-Swept [] failed a b = record { kept = tt; moved = b; counted = refl; same = Perm.rfl }
  sweep-Swept (r ∷ rs) failed a b =
      let ih = sweep-Swept rs failed a.1 b in
      let later = sweep h rs failed in
      elim (Bool-cases (is_exhausted h r)) [
        | inl over ↦ rw over (record {
          kept = ih.kept;
          moved = All-append IsFailure later.1 (give_up r ∷ []) ih.moved (refl, tt);
          counted = omega (arith, ih.counted, length-append later.1 (give_up r ∷ []));
          same =
              rw
                (
                  map-append origin_of later.1 (give_up r ∷ []),
                  ← append_assoc (map origin_of later.0) (map origin_of later.1)
                      (map origin_of (give_up r ∷ [])),
                )
                (Perm.trans
                  (perm_append_comm (map origin_of later.0 ++ map origin_of later.1)
                    (origin_of r ∷ []))
                  (Perm.cons (origin_of r) ih.same));
        })
        | inr under ↦ rw under (record {
          kept = (a.0, ih.kept);
          moved = ih.moved;
          counted = omega (arith, ih.counted);
          same = Perm.cons (origin_of r) ih.same;
        })
      ]

  -- The sweep neither loses nor adds a result.
  pub swept-origins : (b : BatchResult) → IsSorted b → Perm (origins (swept h b)) (origins b)
  unfolding swept origins everything
  swept-origins b s =
      let r = sweep-Swept b.retryables b.failed s.retries s.failures in
      simp map-append (Perm.append_left (map origin_of b.successful) r.same)

  pub swept-IsSorted : (b : BatchResult) → IsSorted b → IsSorted (swept h b)
  unfolding swept
  swept-IsSorted b s =
      let r = sweep-Swept b.retryables b.failed s.retries s.failures in
      record {
        successes = s.successes;
        retries = r.kept;
        failures = r.moved;
        total = omega (arith, s.total, r.counted);
      }
