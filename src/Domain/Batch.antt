-- ===== src/Domain/Batch.antt =====
-- What AddResult of internal/sms/domain/result.go keeps true of a BatchResult.
use mathlib.Core.List.{append_assoc, perm_middle, perm_append_comm, map-append}
use mathlib.Core.List.Perm
use sms_mno_gateway.Base.{
  suc, ◌+◌, List, [], ◌∷◌, ◌++◌, map, length, length-append, ◌≡◌, refl, ap, ◌∙◌, All, All-append,
  Perm, perm_turn_three, arith,
}
use sms_mno_gateway.Domain.Message.{Message}
use sms_mno_gateway.Domain.Result.{
  SendResult, ResultType, success, retryable, permanent, BatchResult, new_batch_result, add_result,
  add_results, place,
}
use sms_mno_gateway.Domain.Outcome.{origin, AreResultsOf}

-- Each category holds results of its type, and the total is the number of results.
pub record IsSorted (b : BatchResult) : Type 0 where
  pub successes : All (λ r. r.outcome ≡ success) b.successful
  pub retries : All (λ r. r.outcome ≡ retryable) b.retryables
  pub failures : All (λ r. r.outcome ≡ permanent) b.failed
  pub total : b.total_count ≡ length b.successful + length b.retryables + length b.failed

unfoldable pub everything : BatchResult → List SendResult
everything b = b.successful ++ (b.retryables ++ b.failed)

abbrev pub origin_of : SendResult → Message
origin_of r = origin r.message

-- The messages that a batch has results for, without the record of their sending.
unfoldable pub origins : BatchResult → List Message
unfolding everything
origins b = map origin_of (everything b)

place-IsSorted :
    (t : ResultType) (r : SendResult) (b : BatchResult)
    → r.outcome ≡ t
    → IsSorted b
    → IsSorted (place t r (record b { total_count = suc b.total_count }))
unfolding place
place-IsSorted success r b e s = record {
  successes = All-append (λ r. r.outcome ≡ success) b.successful (r ∷ []) s.successes (e, tt);
  retries = s.retries;
  failures = s.failures;
  total = omega (arith, s.total, length-append b.successful (r ∷ []));
}
place-IsSorted retryable r b e s = record {
  successes = s.successes;
  retries = All-append (λ r. r.outcome ≡ retryable) b.retryables (r ∷ []) s.retries (e, tt);
  failures = s.failures;
  total = omega (arith, s.total, length-append b.retryables (r ∷ []));
}
place-IsSorted permanent r b e s = record {
  successes = s.successes;
  retries = s.retries;
  failures = All-append (λ r. r.outcome ≡ permanent) b.failed (r ∷ []) s.failures (e, tt);
  total = omega (arith, s.total, length-append b.failed (r ∷ []));
}

pub new_batch_result-IsSorted : IsSorted new_batch_result
unfolding new_batch_result
new_batch_result-IsSorted = record {
  successes = tt;
  retries = tt;
  failures = tt;
  total = omega arith;
}

pub add_results-IsSorted :
    (rs : List SendResult) (b : BatchResult) → IsSorted b → IsSorted (add_results rs b)
unfolding add_results add_result
add_results-IsSorted [] b s = s
add_results-IsSorted (r ∷ rs) b s =
    add_results-IsSorted rs (add_result r b) (place-IsSorted r.outcome r b refl s)

-- A result goes to one place, and nothing else moves.
place-perm :
    (t : ResultType) (r : SendResult) (b : BatchResult)
    → Perm
        (everything (place t r (record b { total_count = suc b.total_count })))
        (r ∷ everything b)
unfolding place everything
place-perm success r b =
    rw (append_assoc b.successful (r ∷ []) (b.retryables ++ b.failed))
      (perm_middle b.successful (b.retryables ++ b.failed))
place-perm retryable r b = rw (append_assoc b.retryables (r ∷ []) b.failed) (
    Perm.trans (Perm.append_left b.successful (perm_middle b.retryables b.failed))
      (perm_middle b.successful (b.retryables ++ b.failed)))
place-perm permanent r b =
    Perm.trans
      (Perm.append_left b.successful
        (Perm.append_left b.retryables (perm_append_comm b.failed (r ∷ []))))
      (Perm.trans (Perm.append_left b.successful (perm_middle b.retryables b.failed))
        (perm_middle b.successful (b.retryables ++ b.failed)))

pub add_results-perm :
    (rs : List SendResult) (b : BatchResult)
    → Perm (everything (add_results rs b)) (rs ++ everything b)
unfolding add_results add_result
add_results-perm [] b = Perm.rfl
add_results-perm (r ∷ rs) b =
    Perm.trans (add_results-perm rs (add_result r b))
      (Perm.trans (Perm.append_left rs (place-perm r.outcome r b)) (perm_middle rs (everything b)))

pub add_results-origins :
    (rs : List SendResult) (b : BatchResult)
    → Perm (origins (add_results rs b)) (map origin_of rs ++ origins b)
unfolding origins
add_results-origins rs b =
    rw (← map-append origin_of rs (everything b)) (Perm.map origin_of (add_results-perm rs b))

-- The results of messages are about these messages, in order.
pub AreResultsOf-origins :
    (ms : List Message) (rs : List SendResult)
    → AreResultsOf ms rs
    → map origin_of rs ≡ map origin ms
AreResultsOf-origins [] [] h = refl
AreResultsOf-origins [] (r ∷ rs) h = absurd h
AreResultsOf-origins (m ∷ ms) [] h = absurd h
AreResultsOf-origins (m ∷ ms) (r ∷ rs) h =
    ap (λ k. k ∷ map origin_of rs) h.0.same
    ∙ ap (λ k. origin m ∷ k) (AreResultsOf-origins ms rs h.1)

-- The results of a batch added to another one by one: successes first, failures last.
pub merge-perm :
    (a b : BatchResult)
    → Perm
        (everything (add_results a.failed (add_results a.retryables (add_results a.successful b))))
        (everything a ++ everything b)
merge-perm a b =
    let one = add_results a.successful b in
    let two = add_results a.retryables one in
    Perm.trans (add_results-perm a.failed two) (
      Perm.trans
        (Perm.append_left a.failed (
          Perm.trans (add_results-perm a.retryables one)
            (Perm.append_left a.retryables (add_results-perm a.successful b))))
        (unfold everything in
          perm_turn_three a.successful a.retryables a.failed
            (b.successful ++ (b.retryables ++ b.failed))))

pub merge-origins :
    (a b : BatchResult)
    → Perm
        (origins (add_results a.failed (add_results a.retryables (add_results a.successful b))))
        (origins a ++ origins b)
unfolding origins
merge-origins a b =
    rw (← map-append origin_of (everything a) (everything b)) (Perm.map origin_of (merge-perm a b))

pub new_batch_result-origins : origins new_batch_result ≡ []
unfolding origins new_batch_result
new_batch_result-origins = refl
