-- ===== src/Redis/PriorityStore.antt =====
-- internal/sms/adapters/redis/priority_store.go.
pub mod Calls
pub mod Coherent
pub mod Exact
pub mod Writes
use sms_mno_gateway.Base.{
  ℕ, ℤ, pos, Bool, true, false, not, ◌&&◌, ◌==◌, if◌then◌else◌, Option, none, some, or_else, Str,
  codes, atoi, itoa, List, [], ◌∷◌, ◌++◌, is_empty, lookup, ◌⊎◌, inl, inr,
}
use sms_mno_gateway.Domain.Errors.{Error}
use sms_mno_gateway.Redis.{RedisClient}

-- PriorityStore without its cache. The Redis client is its argument.
pub record StoreSettings : Type 0 where
  pub weights_key : Str
  pub pubsub_key : Str
  pub default_weights : List (Str × ℤ)

unfoldable pub store_settings : Str → List (Str × ℤ) → StoreSettings
store_settings key defaults = record {
  weights_key = key;
  pubsub_key = key ++ codes ":notifications";
  default_weights = defaults;
}

-- The cache under the mutex, beside the world.
pub record Store (W : Type 0) : Type 0 where
  pub cached_weights : List (Str × ℤ)
  pub cache_valid : Bool
  pub world : W

-- The loop over the hash: values that are no ints are skipped.
unfoldable pub parse_weights : List (Str × Str) → List (Str × ℤ)
parse_weights [] = []
parse_weights ((queue, text) ∷ rest) =
    let others = parse_weights rest in
    elim (atoi text) [ some weight ↦ (queue, weight) ∷ others | none ↦ others ]

unfoldable pub print_entries : List (Str × ℤ) → List (Str × Str)
print_entries [] = []
print_entries ((queue, weight) ∷ rest) = (queue, itoa weight) ∷ print_entries rest

unfoldable pub weight_of_reply : Option Str ⊎ Error → ℤ → ℤ × Option Error
weight_of_reply (inl none) default_weight = (default_weight, none)
weight_of_reply (inl (some text)) default_weight = (or_else (atoi text) default_weight, none)
weight_of_reply (inr e) default_weight = (default_weight, some e)

module _ {W : Type 0} (redis : RedisClient W) (c : StoreSettings) where
  -- HGETALL, before the cache is written.
  unfoldable pub fetch_read : Store W → (List (Str × Str) ⊎ Error) × Store W
  fetch_read s = let r = redis.hget_all c.weights_key s.world in (r.0, record s { world = r.1 })

  unfoldable pub fetch_store :
      List (Str × Str) ⊎ Error → Store W → (List (Str × ℤ) ⊎ Error) × Store W
  unfolding parse_weights
  fetch_store (inr e) s = (inr e, s)
  fetch_store (inl result) s = (
    inl (parse_weights result),
    record s { cached_weights = parse_weights result; cache_valid = true },
  )

  unfoldable pub fetch_weights_from_redis : Store W → (List (Str × ℤ) ⊎ Error) × Store W
  unfolding fetch_read fetch_store
  fetch_weights_from_redis s = let r = fetch_read s in fetch_store r.0 r.1

  unfoldable pub get_queue_weights : Store W → (List (Str × ℤ) ⊎ Error) × Store W
  unfolding fetch_weights_from_redis
  get_queue_weights s =
      if s.cache_valid then (inl s.cached_weights, s) else fetch_weights_from_redis s

  unfoldable pub get_queue_weight : Str → ℤ → Store W → (ℤ × Option Error) × Store W
  unfolding weight_of_reply
  get_queue_weight queue default_weight s =
      if s.cache_valid
      then ((or_else (lookup queue s.cached_weights) default_weight, none), s)
      else let r = redis.hget c.weights_key queue s.world in
        (weight_of_reply r.0 default_weight, record s { world = r.1 })

  unfoldable pub notify_change : Store W → Store W
  notify_change s = record s {
    world = (redis.publish c.pubsub_key (codes "weights_updated") s.world).1;
  }

  unfoldable pub after_hset : Option Error → Store W → Option Error × Store W
  unfolding notify_change
  after_hset (some e) s = (some e, s)
  after_hset none s = (none, notify_change (record s { cache_valid = false }))

  unfoldable pub set_entries : List (Str × ℤ) → Store W → Option Error × Store W
  unfolding after_hset print_entries
  set_entries weights s =
      let r = redis.hset c.weights_key (print_entries weights) s.world in
      after_hset r.0 (record s { world = r.1 })

  unfoldable pub set_queue_weight : Str → ℤ → Store W → Option Error × Store W
  unfolding set_entries
  set_queue_weight queue weight = set_entries ((queue, weight) ∷ [])

  unfoldable pub set_queue_weights : List (Str × ℤ) → Store W → Option Error × Store W
  unfolding set_entries
  set_queue_weights weights s = if is_empty weights then (none, s) else set_entries weights s

  or_defaults : (List (Str × ℤ) ⊎ Error) × Store W → Store W
  or_defaults (inl weights, s) = s
  or_defaults (inr e, s) = record s { cached_weights = c.default_weights; cache_valid = true }

  after_seed : Option Error → Store W → (Store W ⊎ Error) × W
  unfolding fetch_weights_from_redis or_defaults
  after_seed (some e) s = (inr e, s.world)
  after_seed none s = let s' = or_defaults (fetch_weights_from_redis s) in (inl s', s'.world)

  after_exists : ℕ ⊎ Error → Store W → (Store W ⊎ Error) × W
  unfolding set_queue_weights after_seed
  after_exists (inr e) s = (inr e, s.world)
  after_exists (inl count) s =
      let seeded = set_queue_weights c.default_weights s in
      if count == 0 && not (is_empty c.default_weights)
      then after_seed seeded.0 seeded.1
      else after_seed none s

  unfoldable pub new_priority_store : W → (Store W ⊎ Error) × W
  unfolding after_exists
  new_priority_store w =
      let r = redis.exists c.weights_key w in
      after_exists r.0 (record { cached_weights = []; cache_valid = false; world = r.1 })

  to_watcher : (List (Str × ℤ) ⊎ Error) → Option (List (Str × ℤ)) → Option (List (Str × ℤ))
  to_watcher (inr e) channel = channel
  to_watcher (inl weights) none = some weights
  to_watcher (inl weights) (some old) = some old

  -- A notification in the goroutine of WatchWeights, whose channel holds one value at most.
  unfoldable pub watch_notified :
      Option (List (Str × ℤ)) → Store W → Option (List (Str × ℤ)) × Store W
  unfolding to_watcher fetch_weights_from_redis
  watch_notified channel s = let r = fetch_weights_from_redis s in (to_watcher r.0 channel, r.1)
