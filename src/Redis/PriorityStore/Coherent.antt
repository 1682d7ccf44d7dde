-- ===== src/Redis/PriorityStore/Coherent.antt =====
-- The cache of internal/sms/adapters/redis/priority_store.go agrees with Redis, while nobody else
-- writes the hash and no write fails.
use sms_mno_gateway.Base.{
  ℤ, true, Option, none, some, Str, List, [], ◌∷◌, is_empty, ◌⊎◌, inl, inr, ◌≡◌, refl, sym, ap, ◌∙◌,
  if_split,
}
use sms_mno_gateway.Domain.Errors.{Error}
use sms_mno_gateway.Redis.{RedisClient, IsRedis}
use sms_mno_gateway.Redis.PriorityStore.{
  watch_notified, StoreSettings, Store, parse_weights, print_entries, fetch_read, fetch_store,
  fetch_weights_from_redis, get_queue_weights, get_queue_weight, notify_change, after_hset,
  set_entries, set_queue_weight, set_queue_weights,
}
use sms_mno_gateway.Redis.PriorityStore.Calls.{
  StoreCall, read_all, read_one, write_one, write_all, notified, after_call, after_calls, IsWritten,
  AreWritten,
}

module _ {W : Type 0} (redis : RedisClient W) (hash : Str → W → List (Str × Str))
    (law : IsRedis redis hash) (c : StoreSettings) where
  -- The fields that Redis has for the weights.
  abbrev pub stored : Store W → List (Str × Str)
  stored s = hash c.weights_key s.world

  -- A cache that is valid has the weights of the hash.
  pub record IsCoherent (s : Store W) : Type 0 where
    pub cached : s.cache_valid ≡ true → s.cached_weights ≡ parse_weights (stored s)

  moved-IsCoherent :
      (s : Store W) (w : W)
      → hash c.weights_key w ≡ stored s
      → IsCoherent s
      → IsCoherent (record s { world = w })
  moved-IsCoherent s w same h = record { cached = λ valid. rw same (h.cached valid) }

  fetch_store-IsCoherent :
      (r : List (Str × Str) ⊎ Error) (s : Store W)
      → ((h : List (Str × Str)) → r ≡ inl h → h ≡ stored s)
      → IsCoherent s
      → IsCoherent (fetch_store redis c r s).1
  unfolding fetch_store
  fetch_store-IsCoherent (inr e) s read h = h
  fetch_store-IsCoherent (inl result) s read h = record {
    cached = λ valid. ap parse_weights (read result refl);
  }

  fetch-IsCoherent :
      (s : Store W) → IsCoherent s → IsCoherent (fetch_weights_from_redis redis c s).1
  unfolding fetch_weights_from_redis fetch_read
  fetch-IsCoherent s h =
      let r = redis.hget_all c.weights_key s.world in
      let kept = law.got_all_kept c.weights_key c.weights_key s.world in
      fetch_store-IsCoherent r.0 (record s { world = r.1 })
        (λ result read. law.got_all c.weights_key s.world result read ∙ sym kept)
        (moved-IsCoherent s r.1 kept h)

  get_queue_weights-IsCoherent :
      (s : Store W) → IsCoherent s → IsCoherent (get_queue_weights redis c s).1
  unfolding get_queue_weights
  get_queue_weights-IsCoherent s h =
      if_split (λ (r : (List (Str × ℤ) ⊎ Error) × Store W). IsCoherent r.1) s.cache_valid _ _
        (λ valid. h) (λ miss. fetch-IsCoherent s h)

  get_queue_weight-IsCoherent :
      (queue : Str) (d : ℤ) (s : Store W)
      → IsCoherent s
      → IsCoherent (get_queue_weight redis c queue d s).1
  unfolding get_queue_weight
  get_queue_weight-IsCoherent queue d s h =
      if_split (λ (r : (ℤ × Option Error) × Store W). IsCoherent r.1) s.cache_valid _ _ (λ valid. h)
        (λ miss.
          moved-IsCoherent s (redis.hget c.weights_key queue s.world).1
            (law.got_kept c.weights_key queue c.weights_key s.world) h)

  after_hset-IsCoherent :
      (o : Option Error) (s : Store W)
      → (after_hset redis c o s).0 ≡ none
      → IsCoherent (after_hset redis c o s).1
  unfolding after_hset notify_change
  after_hset-IsCoherent (some e) s written = absurd (cc written)
  after_hset-IsCoherent none s written = record { cached = λ valid. absurd (cc valid) }

  set_entries-IsCoherent :
      (ws : List (Str × ℤ)) (s : Store W)
      → (set_entries redis c ws s).0 ≡ none
      → IsCoherent (set_entries redis c ws s).1
  unfolding set_entries
  set_entries-IsCoherent ws s written =
      let r = redis.hset c.weights_key (print_entries ws) s.world in
      after_hset-IsCoherent r.0 (record s { world = r.1 }) written

  set_queue_weights-IsCoherent :
      (ws : List (Str × ℤ)) (s : Store W)
      → IsCoherent s
      → (set_queue_weights redis c ws s).0 ≡ none
      → IsCoherent (set_queue_weights redis c ws s).1
  unfolding set_queue_weights
  set_queue_weights-IsCoherent ws s h =
      if_split (λ (r : Option Error × Store W). r.0 ≡ none → IsCoherent r.1) (is_empty ws) _ _
        (λ nothing written. h) (λ some_weights. set_entries-IsCoherent ws s)

  after_call-IsCoherent :
      (call : StoreCall) (s : Store W)
      → IsCoherent s
      → IsWritten redis c call s
      → IsCoherent (after_call redis c call s)
  unfolding after_call set_queue_weight watch_notified
  after_call-IsCoherent read_all s h written = get_queue_weights-IsCoherent s h
  after_call-IsCoherent (read_one queue d) s h written = get_queue_weight-IsCoherent queue d s h
  after_call-IsCoherent (write_one queue weight) s h written =
      set_entries-IsCoherent ((queue, weight) ∷ []) s written
  after_call-IsCoherent (write_all ws) s h written = set_queue_weights-IsCoherent ws s h written
  after_call-IsCoherent (notified channel) s h written = fetch-IsCoherent s h

  pub after_calls-IsCoherent :
      (calls : List StoreCall) (s : Store W)
      → IsCoherent s
      → AreWritten redis c calls s
      → IsCoherent (after_calls redis c calls s)
  unfolding after_calls
  after_calls-IsCoherent [] s h written = h
  after_calls-IsCoherent (call ∷ calls) s h written =
      after_calls-IsCoherent calls (after_call redis c call s)
        (after_call-IsCoherent call s h written.0) written.1
