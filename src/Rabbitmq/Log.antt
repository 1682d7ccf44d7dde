-- ===== src/Rabbitmq/Log.antt =====
-- What the steps of internal/sms/adapters/rabbitmq/publisher.go hand over to the client library.
use mathlib.Core.List.{append_assoc, append-nil}
use sms_mno_gateway.Base.{
  ℕ, Option, none, Str, List, [], ◌∷◌, ◌++◌, map, ◌>>?◌, >>?_none, each_ok, ◌≡◌, refl, sym, ap, ◌∙◌,
  arith, ◌⊎◌, inl, inr, Bool-cases,
}
use sms_mno_gateway.Domain.Errors.{Error}
use sms_mno_gateway.Domain.Message.{Message}
use sms_mno_gateway.Domain.Result.{
  SendResult, BatchResult, ResultType, success, retryable, permanent,
}
use sms_mno_gateway.Rabbitmq.Publisher.{
  Amqp, Link, Body, single, batch, wire, get_channel, send_on, unencodable, any_unencodable,
  publish_body, publish, publish_batch,
}
use sms_mno_gateway.Rabbitmq.Results.{
  Routes, messages_of, promotional_retries, transactional_retries, publish_saved, publish_group,
  save_failure, publish_batch_results,
}
use sms_mno_gateway.Rabbitmq.Postings.{Posting, postings, body_postings, IsLog}

map-wire :
    (queue : Str) (ms : List Message) → map (λ m. (queue, m)) (map wire ms) ≡ postings queue ms
map-wire queue [] = refl
map-wire queue (m ∷ ms) = ap (λ k. (queue, wire m) ∷ k) (map-wire queue ms)

-- The postings in the order in which PublishBatchResults makes them.
unfoldable pub posted : Routes → BatchResult → List Posting
posted c b =
    postings c.queues.save_to_db_queue (messages_of b.successful)
    ++ (postings c.queues.transactional_delay_queue (transactional_retries c b.retryables)
        ++ (postings c.queues.promotional_delay_queue (promotional_retries c b.retryables)
            ++ (postings c.queues.dead_letter_queue (messages_of b.failed)
                ++ postings c.queues.save_to_db_queue (messages_of b.failed))))

module _ {W : Type 0} (amqp : Amqp W) (c : Routes) (log : W → List Posting)
    (law : IsLog amqp log) where
  get_channel_log : (l : Link W) → log (get_channel amqp l).1.world ≡ log l.world
  unfolding get_channel
  get_channel_log l = ground (arith, law.opened l.world)

  send_on_log :
      (ch : ℕ ⊎ Error) (queue : Str) (body : Body) (l : Link W)
      → (send_on amqp ch queue body l).0 ≡ none
      → log (send_on amqp ch queue body l).1.world ≡ log l.world ++ body_postings queue body
  unfolding send_on
  send_on_log (inl ch) queue body l h = law.accepted ch queue body l.world h
  send_on_log (inr e) queue body l h = cc

  publish_body_log :
      (queue : Str) (body : Body) (l : Link W)
      → (publish_body amqp queue body l).0 ≡ none
      → log (publish_body amqp queue body l).1.world ≡ log l.world ++ body_postings queue body
  unfolding publish_body
  publish_body_log queue body l h =
      let r = get_channel amqp l in
      send_on_log r.0 queue body r.1 h ∙ ap (λ k. k ++ body_postings queue body) (get_channel_log l)

  publish_log :
      (queue : Str) (m : Message) (l : Link W)
      → (publish amqp queue m l).0 ≡ none
      → log (publish amqp queue m l).1.world ≡ log l.world ++ (queue, wire m) ∷ []
  unfolding publish
  publish_log queue m l h = elim (Bool-cases (unencodable m)) [
    | inl bad ↦ absurd (cc (rw bad at h))
    | inr fine ↦ rw fine (publish_body_log queue (single (wire m)) l (rw fine at h))
  ]

  publish_group_log :
      (queue : Str) (ms : List Message) (l : Link W)
      → (publish_group amqp c queue ms l).0 ≡ none
      → log (publish_group amqp c queue ms l).1.world ≡ log l.world ++ postings queue ms
  unfolding publish_group publish_batch
  publish_group_log queue [] l h = sym (append-nil (log l.world))
  publish_group_log queue (m ∷ ms) l h = elim (Bool-cases (any_unencodable (m ∷ ms))) [
    | inl bad ↦ absurd (cc (rw bad at h))
    | inr fine ↦ rw fine (
        publish_body_log queue (batch (map wire (m ∷ ms))) l (rw fine at h)
        ∙ ap (λ k. log l.world ++ k) (map-wire queue (m ∷ ms)))
  ]

  -- A step that returns no error only after it has handed these postings over.
  pub record Appends (a : Link W → Option Error × Link W) (xs : List Posting) : Type 0 where
    pub appended : (l : Link W) → (a l).0 ≡ none → log (a l).1.world ≡ log l.world ++ xs

  pub publish-Appends :
      (queue : Str) (m : Message) → Appends (publish amqp queue m) ((queue, wire m) ∷ [])
  publish-Appends queue m = record { appended = publish_log queue m }

  skip-Appends : Appends (λ l. (none, l)) []
  skip-Appends = record { appended = λ l h. sym (append-nil (log l.world)) }

  pub >>?-Appends :
      {a b : Link W → Option Error × Link W} {xs ys : List Posting}
      → Appends a xs
      → Appends b ys
      → Appends (a >>? b) (xs ++ ys)
  >>?-Appends {a} {b} {xs} {ys} ha hb = record {
    appended = λ l h.
        let ok = >>?_none a b l h in
        ap (λ (k : Link W). log k.world) ok.2
        ∙ hb.appended (a l).1 ok.1
        ∙ ap (λ k. k ++ ys) (ha.appended l ok.0)
        ∙ append_assoc (log l.world) xs ys;
  }

  publish_group-Appends :
      (queue : Str) (ms : List Message)
      → Appends (publish_group amqp c queue ms) (postings queue ms)
  publish_group-Appends queue ms = record { appended = publish_group_log queue ms }

  publish_saved-Appends :
      (rs : List SendResult)
      → Appends (publish_saved amqp c rs) (postings c.queues.save_to_db_queue (messages_of rs))
  unfolding publish_saved each_ok
  publish_saved-Appends [] = skip-Appends
  publish_saved-Appends (r ∷ rs) =
      >>?-Appends (publish-Appends c.queues.save_to_db_queue r.message) (publish_saved-Appends rs)

  pub publish_batch_results-Appends :
      (b : BatchResult) → Appends (publish_batch_results amqp c b) (posted c b)
  unfolding publish_batch_results posted
  publish_batch_results-Appends b =
      let group = publish_group-Appends in
      >>?-Appends (publish_saved-Appends b.successful) (
        >>?-Appends
          (group c.queues.transactional_delay_queue (transactional_retries c b.retryables))
          (>>?-Appends (group c.queues.promotional_delay_queue (promotional_retries c b.retryables))
            (>>?-Appends (group c.queues.dead_letter_queue (messages_of b.failed))
              (group c.queues.save_to_db_queue (messages_of b.failed)))))

  pub save_failure-Appends :
      (t : ResultType) (m : Message)
      → Appends
          (save_failure amqp c t m)
          (elim t [ permanent ↦ (c.queues.save_to_db_queue, wire m) ∷ [] | _ ↦ [] ])
  unfolding save_failure
  save_failure-Appends success m = skip-Appends
  save_failure-Appends retryable m = skip-Appends
  save_failure-Appends permanent m = publish-Appends c.queues.save_to_db_queue m
