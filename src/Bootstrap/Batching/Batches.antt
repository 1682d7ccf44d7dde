-- ===== src/Bootstrap/Batching/Batches.antt =====
-- What accumulateBatch of internal/bootstrap/app.go collects.
use mathlib.Core.List.{append_assoc, append-nil}
use sms_mno_gateway.Base.{
  ℕ, ◌<◌, ltb, List, [], ◌∷◌, ◌++◌, length, ◌≡◌, refl, sym, ap, ◌∙◌, ◌⊎◌, inl, inr, arith,
  Bool-cases,
}
use sms_mno_gateway.Domain.Message.{Message}
use sms_mno_gateway.Ports.Queues.{Delivery}
use sms_mno_gateway.Bootstrap.Batching.{
  Offer, offered, channel_closed, nothing, context_done, drain_more, accumulate_batch,
}

module _ {W : Type 0} where
  -- The messages of deliveries, in order.
  unfoldable pub messages_of : List (Delivery W) → List Message
  messages_of [] = []
  messages_of (d ∷ ds) = d.messages ++ messages_of ds

  pub messages_of-append :
      (ds es : List (Delivery W)) → messages_of (ds ++ es) ≡ messages_of ds ++ messages_of es
  unfolding messages_of
  messages_of-append [] es = refl
  messages_of-append (d ∷ ds) es =
      ap (λ r. d.messages ++ r) (messages_of-append ds es)
      ∙ sym (append_assoc d.messages (messages_of ds) (messages_of es))

  messages_of-snoc :
      (ds : List (Delivery W)) (d : Delivery W)
      → messages_of (ds ++ (d ∷ [])) ≡ messages_of ds ++ d.messages
  unfolding messages_of
  messages_of-snoc ds d =
      messages_of-append ds (d ∷ []) ∙ ap (λ r. messages_of ds ++ r) (append-nil d.messages)

  -- A batch has the messages of its deliveries. Without the last delivery it has less than the
  -- bound, or it is that delivery alone.
  pub record IsBatch (max_msgs : ℕ) (msgs : List Message) (batch : List (Delivery W)) : Type 0 where
    pub whole : msgs ≡ messages_of batch
    pub first : List (Delivery W)
    pub last : Delivery W
    pub parts : batch ≡ first ++ (last ∷ [])
    pub bounded : (first ≡ []) ⊎ (length (messages_of first) < max_msgs)

  drain_more-IsBatch :
      (max_msgs : ℕ) (offers : List (Offer W)) (msgs : List Message) (batch : List (Delivery W))
      → IsBatch max_msgs msgs batch
      → IsBatch max_msgs
          (drain_more max_msgs msgs batch offers).msgs
          (drain_more max_msgs msgs batch offers).batch
  unfolding drain_more
  drain_more-IsBatch max_msgs [] msgs batch h = h
  drain_more-IsBatch max_msgs (offered d ∷ rest) msgs batch h =
      elim (Bool-cases (ltb (length msgs) max_msgs)) [
        | inl room ↦ rw room (
            drain_more-IsBatch max_msgs rest (msgs ++ d.messages) (batch ++ (d ∷ [])) (record {
              whole = rw h.whole (sym (messages_of-snoc batch d));
              first = batch;
              last = d;
              parts = refl;
              bounded = inr (rw (← h.whole) (ground arith));
            }))
        | inr full ↦ rw full h
      ]
  drain_more-IsBatch max_msgs (channel_closed ∷ rest) msgs batch h = h
  drain_more-IsBatch max_msgs (nothing ∷ rest) msgs batch h = h
  drain_more-IsBatch max_msgs (context_done ∷ rest) msgs batch h = h

  -- accumulateBatch returns no delivery at all, or a batch with all messages of its deliveries in
  -- order, in which the deliveries before the last one have fewer messages than the bound, or the last
  -- one is alone.
  pub accumulate_batch-IsBatch :
      (max_msgs : ℕ) (offers : List (Offer W))
      → (((accumulate_batch max_msgs offers).msgs ≡ [])
          × ((accumulate_batch max_msgs offers).batch ≡ []))
        ⊎ IsBatch max_msgs
            (accumulate_batch max_msgs offers).msgs
            (accumulate_batch max_msgs offers).batch
  unfolding accumulate_batch messages_of
  accumulate_batch-IsBatch max_msgs [] = inl (refl, refl)
  accumulate_batch-IsBatch max_msgs (offered d ∷ rest) = inr (
      drain_more-IsBatch max_msgs rest d.messages (d ∷ []) (record {
        whole = sym (append-nil d.messages);
        first = [];
        last = d;
        parts = refl;
        bounded = inl refl;
      }))
  accumulate_batch-IsBatch max_msgs (nothing ∷ rest) = accumulate_batch-IsBatch max_msgs rest
  accumulate_batch-IsBatch max_msgs (channel_closed ∷ rest) = inl (refl, refl)
  accumulate_batch-IsBatch max_msgs (context_done ∷ rest) = inl (refl, refl)

  pub accumulate_batch-whole :
      (max_msgs : ℕ) (offers : List (Offer W))
      → (accumulate_batch max_msgs offers).msgs
        ≡ messages_of (accumulate_batch max_msgs offers).batch
  unfolding messages_of
  accumulate_batch-whole max_msgs offers = elim (accumulate_batch-IsBatch max_msgs offers) [
    | inl none_there ↦ none_there.0 ∙ ap messages_of (sym none_there.1)
    | inr b ↦ b.whole
  ]
