-- ===== src/Rabbitmq/Routing.antt =====
-- Where PublishBatchResults and PublishResult leave the messages, by what the client library has
-- accepted for the broker.
use mathlib.Core.List.{append_assoc, perm_middle}
use mathlib.Core.List.Perm
use sms_mno_gateway.Base.{
  Bool, not, if◌then◌else◌, none, Str, List, [], ◌∷◌, ◌++◌, map, keep, ◌>>?◌, ◌≡◌, Perm, inl, inr,
  Bool-cases,
}
use sms_mno_gateway.Domain.Message.{Message, is_promotional}
use sms_mno_gateway.Domain.Result.{
  SendResult, BatchResult, ResultType, success, retryable, permanent,
}
use sms_mno_gateway.Rabbitmq.Publisher.{Amqp, Link, wire, publish}
use sms_mno_gateway.Rabbitmq.Results.{
  Routes, messages_of, delay_queue, promotional_retries, transactional_retries, publish_result,
  save_failure, publish_batch_results,
}
use sms_mno_gateway.Rabbitmq.Postings.{Posting, postings, IsLog, expected}
use sms_mno_gateway.Rabbitmq.Log.{
  posted, Appends, publish-Appends, >>?-Appends, save_failure-Appends,
  publish_batch_results-Appends,
}
use sms_mno_gateway.Domain.Result.{add_result, new_batch_result}
use sms_mno_gateway.Rabbitmq.Results.{result_queue}

-- Posting the messages that fail a test to one queue and those that pass it to another posts each
-- message once.
split_perm :
    (p : Message → Bool) (pass fail : Str) (ms : List Message)
    → Perm
        (postings fail (keep (λ m. not (p m)) ms) ++ postings pass (keep p ms))
        (map (λ m. (if p m then pass else fail, wire m)) ms)
unfolding keep
split_perm p pass fail [] = Perm.nil
split_perm p pass fail (m ∷ ms) = elim (Bool-cases (p m)) [
  | inl e ↦ rw e (
      Perm.trans
        (perm_middle (postings fail (keep (λ k. not (p k)) ms)) (postings pass (keep p ms)))
        (Perm.cons (pass, wire m) (split_perm p pass fail ms)))
  | inr e ↦ rw e (Perm.cons (fail, wire m) (split_perm p pass fail ms))
]

posted-expected : (c : Routes) (b : BatchResult) → Perm (posted c b) (expected c b)
unfolding posted expected transactional_retries promotional_retries delay_queue
posted-expected c b =
    Perm.append_left (postings c.queues.save_to_db_queue (messages_of b.successful)) (
      rw
        (← append_assoc
          (postings c.queues.transactional_delay_queue (transactional_retries c b.retryables)))
        (Perm.append_right _ (
          split_perm (λ m. is_promotional m c.gateway_queue_name) c.queues.promotional_delay_queue
            c.queues.transactional_delay_queue (messages_of b.retryables))))

module _ {W : Type 0} (amqp : Amqp W) (c : Routes) (log : W → List Posting)
    (law : IsLog amqp log) where
  -- When PublishBatchResults returns nil, what it has handed over is, in some order, what the
  -- publisher promises: each success to the save queue, each retryable message to the delay queue of
  -- its kind, and each failure to the dead-letter queue and to the save queue, and nothing else.
  pub publish_batch_results_routes :
      (b : BatchResult) (l : Link W)
      → (publish_batch_results amqp c b l).0 ≡ none
      → Perm (log (publish_batch_results amqp c b l).1.world) (log l.world ++ expected c b)
  publish_batch_results_routes b l h =
      rw ((publish_batch_results-Appends amqp c log law b).appended l h)
        (Perm.append_left (log l.world) (posted-expected c b))

  result-Appends :
      (t : ResultType) (r : SendResult)
      → Appends amqp c log law
          (publish amqp (result_queue c t r.message) r.message >>? save_failure amqp c t r.message)
          (expected c (add_result (record r { outcome = t }) new_batch_result))
  unfolding expected add_result new_batch_result result_queue
  result-Appends success r =
      >>?-Appends amqp c log law (publish-Appends amqp c log law _ r.message)
        (save_failure-Appends amqp c log law success r.message)
  result-Appends retryable r =
      >>?-Appends amqp c log law (publish-Appends amqp c log law _ r.message)
        (save_failure-Appends amqp c log law retryable r.message)
  result-Appends permanent r =
      >>?-Appends amqp c log law (publish-Appends amqp c log law _ r.message)
        (save_failure-Appends amqp c log law permanent r.message)

  -- When PublishResult returns nil, it has handed over what the publisher promises for a batch of
  -- that one result, and nothing else.
  pub publish_result_routes :
      (r : SendResult) (l : Link W)
      → (publish_result amqp c r l).0 ≡ none
      → log (publish_result amqp c r l).1.world
        ≡ log l.world ++ expected c (add_result r new_batch_result)
  unfolding publish_result
  publish_result_routes r l h = (result-Appends r.outcome r).appended l h
