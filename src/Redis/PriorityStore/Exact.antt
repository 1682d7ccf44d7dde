-- ===== src/Redis/PriorityStore/Exact.antt =====
-- What a read of internal/sms/adapters/redis/priority_store.go returns, from the cache or from Redis.
use sms_mno_gateway.Base.{
  ℤ, Option, none, some, or_else, Str, str_eq, str_eq_iff, atoi, List, [], ◌∷◌, lookup, ◌⊎◌, inl,
  inr, ◌≡◌, refl, ◌∙◌, Bool-cases, Option-cases, if_split,
}
use sms_mno_gateway.Domain.Errors.{Error}
use sms_mno_gateway.Redis.{RedisClient, IsRedis, HasUniqueKeys}
use sms_mno_gateway.Redis.PriorityStore.{
  StoreSettings, Store, parse_weights, get_queue_weight, weight_of_reply,
}
use sms_mno_gateway.Redis.PriorityStore.Calls.{StoreCall, after_calls, AreWritten}
use sms_mno_gateway.Redis.PriorityStore.Coherent.{IsCoherent, stored, after_calls-IsCoherent}

-- The weight that a field of the hash stands for.
unfoldable pub weight_of : Option Str → Option ℤ
weight_of none = none
weight_of (some text) = atoi text

-- The weight that a queue has by the hash.
unfoldable pub hash_weight : List (Str × Str) → Str → ℤ → ℤ
unfolding weight_of
hash_weight h queue default_weight = or_else (weight_of (lookup queue h)) default_weight

pub lookup-parse_weights :
    (queue : Str) (h : List (Str × Str))
    → HasUniqueKeys h
    → lookup queue (parse_weights h) ≡ weight_of (lookup queue h)
unfolding lookup parse_weights weight_of
lookup-parse_weights queue [] u = refl
lookup-parse_weights queue ((k, text) ∷ rest) u =
    let ih = lookup-parse_weights queue rest u.1 in
    elim (Bool-cases (str_eq k queue)) [
      | inl same ↦
          let absent : lookup queue rest ≡ none = rw ((str_eq_iff k queue).0 same) at u.0 in
          elim (Option-cases (atoi text)) [
            | inl bad ↦ rw (same, bad, parse_weights) (ih ∙ rw (absent, weight_of) refl)
            | inr (v, good) ↦ rw (same, good, parse_weights, lookup, same) refl
          ]
      | inr other ↦ elim (Option-cases (atoi text)) [
        | inl bad ↦ rw (other, bad, parse_weights) ih
        | inr (v, good) ↦ rw (other, good, parse_weights, lookup, other) ih
      ]
    ]

module _ {W : Type 0} (redis : RedisClient W) (hash : Str → W → List (Str × Str))
    (law : IsRedis redis hash) (c : StoreSettings) where
  reply_weight :
      (r : Option Str ⊎ Error) (queue : Str) (d : ℤ) (h : List (Str × Str))
      → ((o : Option Str) → r ≡ inl o → o ≡ lookup queue h)
      → (weight_of_reply r d).1 ≡ none
      → (weight_of_reply r d).0 ≡ hash_weight h queue d
  unfolding weight_of_reply hash_weight
  reply_weight (inl none) queue d h read fine = rw (← read none refl, weight_of) refl
  reply_weight (inl (some text)) queue d h read fine = rw (← read (some text) refl, weight_of) refl
  reply_weight (inr e) queue d h read fine = absurd (cc fine)

  pub exact_weight :
      (queue : Str) (d : ℤ) (s : Store W)
      → IsCoherent redis hash law c s
      → (get_queue_weight redis c queue d s).0.1 ≡ none
      → (get_queue_weight redis c queue d s).0.0 ≡ hash_weight (stored redis hash law c s) queue d
  unfolding get_queue_weight hash_weight
  exact_weight queue d s h =
      if_split
        (λ (r : (ℤ × Option Error) × Store W).
          r.0.1 ≡ none → r.0.0 ≡ hash_weight (stored redis hash law c s) queue d)
        s.cache_valid _ _
        (λ valid fine.
          rw
            (
              h.cached valid,
              lookup-parse_weights queue (stored redis hash law c s)
                  (law.unique c.weights_key s.world),
            )
            refl)
        (λ miss fine.
          reply_weight (redis.hget c.weights_key queue s.world).0 queue d
            (stored redis hash law c s) (λ o read. law.got c.weights_key queue s.world o read) fine)

  -- With a client that answers from the hash of the weights, which nobody else writes: from a store
  -- whose cache is invalid or has the weights of the hash, after any sequence of reads,
  -- notifications and writes in which every write is answered without an error, a weight that is read
  -- without an error is the one of the hash, or the default if the queue has none or one that is no
  -- int.
  pub get_queue_weight_exact :
      (calls : List StoreCall) (s : Store W) (queue : Str) (d : ℤ)
      → IsCoherent redis hash law c s
      → AreWritten redis c calls s
      → (get_queue_weight redis c queue d (after_calls redis c calls s)).0.1 ≡ none
      → (get_queue_weight redis c queue d (after_calls redis c calls s)).0.0
        ≡ hash_weight (stored redis hash law c (after_calls redis c calls s)) queue d
  get_queue_weight_exact calls s queue d h written fine =
      exact_weight queue d (after_calls redis c calls s)
        (after_calls-IsCoherent redis hash law c calls s h written) fine
