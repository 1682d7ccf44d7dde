-- ===== src/Redis/PriorityStore/Writes.antt =====
-- What a write of internal/sms/adapters/redis/priority_store.go makes later reads return, alone and in
-- a race with a read.
use sms_mno_gateway.Base.{
  ℤ, suc, ◌≤◌, pos_part, neg_part, int_max, false, Option, none, some, Str, itoa, atoi-itoa, List,
  [], ◌∷◌, lookup, inl, ◌≡◌, refl, sym, ap, ◌∙◌,
}
use sms_mno_gateway.Domain.Errors.{Error}
use sms_mno_gateway.Redis.{RedisClient, IsRedis, put_all}
use sms_mno_gateway.Redis.Hashes.{lookup-put_self}
use sms_mno_gateway.Redis.PriorityStore.{
  StoreSettings, Store, print_entries, fetch_read, fetch_store, get_queue_weight, notify_change,
  after_hset, set_entries, set_queue_weight,
}
use sms_mno_gateway.Redis.PriorityStore.Coherent.{stored}
use sms_mno_gateway.Redis.PriorityStore.Exact.{
  weight_of, hash_weight, lookup-parse_weights, exact_weight,
}

module _ {W : Type 0} (redis : RedisClient W) (hash : Str → W → List (Str × Str))
    (law : IsRedis redis hash) (c : StoreSettings) where
  after_hset-none :
      (o : Option Error) (s : Store W)
      → (after_hset redis c o s).0 ≡ none
      → (o ≡ none)
        × ((after_hset redis c o s).1.cache_valid ≡ false)
        × (stored redis hash law c (after_hset redis c o s).1 ≡ stored redis hash law c s)
  unfolding after_hset notify_change
  after_hset-none (some e) s h = absurd (cc h)
  after_hset-none none s h = (refl, refl, law.published c.pubsub_key _ c.weights_key s.world)

  set_stored :
      (queue : Str) (weight : ℤ) (s : Store W)
      → (set_queue_weight redis c queue weight s).0 ≡ none
      → ((set_queue_weight redis c queue weight s).1.cache_valid ≡ false)
        × (lookup queue (stored redis hash law c (set_queue_weight redis c queue weight s).1)
            ≡ some (itoa weight))
  unfolding set_queue_weight set_entries put_all print_entries
  set_stored queue weight s fine =
      let r = redis.hset c.weights_key ((queue, itoa weight) ∷ []) s.world in
      let (set, invalid, kept) = after_hset-none r.0 (record s { world = r.1 }) fine in
      (
        invalid,
        ap (lookup queue) (kept ∙ law.was_set c.weights_key ((queue, itoa weight) ∷ []) s.world set)
            ∙ lookup-put_self queue (itoa weight) (stored redis hash law c s),
      )

  -- With a client that answers from the hash of the weights: a weight in the range of an int that is
  -- set without an error is what the next read of the queue returns, if that has no error either.
  pub get_queue_weight-set_queue_weight :
      (queue : Str) (weight d : ℤ) (s : Store W)
      → pos_part weight ≤ int_max
      → neg_part weight ≤ suc int_max
      → (set_queue_weight redis c queue weight s).0 ≡ none
      → (get_queue_weight redis c queue d (set_queue_weight redis c queue weight s).1).0.1 ≡ none
      → (get_queue_weight redis c queue d (set_queue_weight redis c queue weight s).1).0.0 ≡ weight
  unfolding hash_weight weight_of
  get_queue_weight-set_queue_weight queue weight d s upper lower set fine =
      let (invalid, there) = set_stored queue weight s set in
      exact_weight redis hash law c queue d (set_queue_weight redis c queue weight s).1
        (record { cached = λ valid. absurd (cc (sym invalid ∙ valid)) }) fine
      ∙ rw (there, weight_of, atoi-itoa weight upper lower) refl

  -- With a client that answers from the hash of the weights: a fetch that has read the hash before a
  -- weight is set, and writes the cache afterwards, leaves a valid cache with the old weight. Redis has
  -- the new one, but every read of the queue returns the old one, without an error and without asking
  -- Redis.
  pub set_queue_weight-stale :
      (queue : Str) (weight d : ℤ) (s : Store W) (h : List (Str × Str))
      → (fetch_read redis c s).0 ≡ inl h
      → (set_queue_weight redis c queue weight (fetch_read redis c s).1).0 ≡ none
      → (let t =
            (fetch_store redis c
              (inl h)
              (set_queue_weight redis c queue weight (fetch_read redis c s).1).1).1 in
          (lookup queue (stored redis hash law c t) ≡ some (itoa weight))
          × (get_queue_weight redis c queue d t
              ≡ ((hash_weight (stored redis hash law c s) queue d, none), t)))
  unfolding fetch_read fetch_store get_queue_weight hash_weight
  set_queue_weight-stale queue weight d s h read set =
      let (invalid, there) = set_stored queue weight (fetch_read redis c s).1 set in
      (
        there,
        rw
            (
              law.got_all c.weights_key s.world h read,
              lookup-parse_weights queue (stored redis hash law c s)
                  (law.unique c.weights_key s.world),
            )
            refl,
      )
