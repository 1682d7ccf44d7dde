-- ===== src/Tests/Stores.antt =====
-- The Redis adapters at concrete inputs.
use sms_mno_gateway.Base.{decimal}
use sms_mno_gateway.Base.{
  pos, false, none, some, Str, codes, str_eq, itoa, atoi, lookup, List, [], ◌∷◌, ◌⊎◌, inl, ◌≡◌,
  refl,
}
use sms_mno_gateway.Domain.Errors.{Error}
use sms_mno_gateway.Redis.{RedisClient, IsRedis, put_all, put_missing, HasUniqueKeys}
use sms_mno_gateway.Redis.Hashes.{put_all-HasUniqueKeys, put_missing-HasUniqueKeys}
use sms_mno_gateway.Redis.PriorityStore.{
  StoreSettings, Store, fetch_read, fetch_store, get_queue_weight, set_queue_weight,
}
use sms_mno_gateway.Redis.PriorityStore.Calls.{
  StoreCall, write_one, read_all, after_call, after_calls, AreWritten,
}
use sms_mno_gateway.Redis.PriorityStore.Coherent.{IsCoherent, stored}
use sms_mno_gateway.Redis.PriorityStore.Exact.{hash_weight, get_queue_weight_exact}
use sms_mno_gateway.Redis.PriorityStore.Writes.{set_queue_weight-stale}
use sms_mno_gateway.Redis.DynamicConfig.{
  DynamicConfig, config_key, get_int, set_all, refresh_namespace,
}
use sms_mno_gateway.Redis.DynamicConfig.Writes.{get_int-set_all_crash}
use sms_mno_gateway.Redis.PriorityStore.{get_queue_weights, fetch_weights_from_redis, fetch_store}
use sms_mno_gateway.Service.Scheduler.{PriorityScheduler, new_priority_scheduler}
use sms_mno_gateway.Service.Scheduler.Weights.{get_or_create_queue_state}
use sms_mno_gateway.Service.Scheduler.Loading.{loaded, load_weights}
use sms_mno_gateway.Service.Scheduler.Followed.{load_weights-follows}

-- A Redis with one hash, for every key.
abbrev OneHash : Type 0
OneHash = (h : List (Str × Str)) × HasUniqueKeys h

abbrev one_hash : Str → OneHash → List (Str × Str)
one_hash k w = w.0

abbrev local_redis : RedisClient OneHash
local_redis = record {
  exists = λ k w. (inl 1, w);
  hget = λ k f w. (inl (lookup f w.0), w);
  hget_all = λ k w. (inl w.0, w);
  hset = λ k es w. (none, (put_all es w.0, put_all-HasUniqueKeys es w.0 w.1));
  hset_nx = λ k es w. (none, (put_missing es w.0, put_missing-HasUniqueKeys es w.0 w.1));
  publish = λ c m w. (none, w);
}

inl_injective : {A : Type 0} (a b : A) → ◌≡◌ {A = A ⊎ Error} (inl a) (inl b) → b ≡ a
inl_injective a b e = cc

local-IsRedis : IsRedis local_redis one_hash
local-IsRedis = record {
  unique = λ k w. w.1;
  got = λ k f w o e. inl_injective (lookup f w.0) o e;
  got_kept = λ k f j w. refl;
  got_all = λ k w h e. inl_injective w.0 h e;
  got_all_kept = λ k j w. refl;
  was_set = λ k es w e. refl;
  published = λ c m k w. refl;
  was_seeded = λ k es w e. refl;
}

abbrev old_weights : OneHash
unfolding lookup
old_weights = ((codes "GOLD", codes "7") ∷ [], (refl, tt))

abbrev settings : StoreSettings
settings = record {
  weights_key = codes "weights";
  pubsub_key = codes "weights:notifications";
  default_weights = [];
}

abbrev new_store : Store OneHash
new_store = record { cached_weights = []; cache_valid = false; world = old_weights }

new_store-IsCoherent : IsCoherent local_redis one_hash local-IsRedis settings new_store
new_store-IsCoherent = record { cached = λ valid. absurd (cc valid) }

abbrev history : List StoreCall
history = read_all ∷ write_one (codes "GOLD") (pos 9) ∷ read_all ∷ []

read_after_history :
    (get_queue_weight local_redis settings
      (codes "GOLD")
      (pos 1)
      (after_calls local_redis settings history new_store)).0
    ≡ (pos 9, none)
unfolding get_queue_weight after_calls lookup put_all str_eq atoi itoa decimal
read_after_history = refl

fine_after_history :
    (get_queue_weight local_redis settings
      (codes "GOLD")
      (pos 1)
      (after_calls local_redis settings history new_store)).0.1
    ≡ none
unfolding get_queue_weight after_calls
fine_after_history = refl

history_written : AreWritten local_redis settings history new_store
unfolding set_queue_weight after_call
history_written = (tt, (refl, (tt, tt)))

get_queue_weight_exact_example :
    (get_queue_weight local_redis settings
      (codes "GOLD")
      (pos 1)
      (after_calls local_redis settings history new_store)).0.0
    ≡ hash_weight
        (stored local_redis one_hash local-IsRedis settings
          (after_calls local_redis settings history new_store))
        (codes "GOLD")
        (pos 1)
get_queue_weight_exact_example =
    get_queue_weight_exact local_redis one_hash local-IsRedis settings history new_store
      (codes "GOLD") (pos 1) new_store-IsCoherent history_written fine_after_history

old_read : (fetch_read local_redis settings new_store).0 ≡ inl old_weights.0
unfolding fetch_read
old_read = refl

written_between :
    (set_queue_weight local_redis settings
      (codes "GOLD")
      (pos 9)
      (fetch_read local_redis settings new_store).1).0
    ≡ none
unfolding set_queue_weight fetch_read
written_between = refl

abbrev raced : Store OneHash
raced =
    (fetch_store local_redis settings (inl old_weights.0)
      (set_queue_weight local_redis settings (codes "GOLD") (pos 9)
        (fetch_read local_redis settings new_store).1).1).1

set_queue_weight-stale_example :
    (lookup (codes "GOLD") (stored local_redis one_hash local-IsRedis settings raced)
      ≡ some (itoa (pos 9)))
    × (get_queue_weight local_redis settings (codes "GOLD") (pos 1) raced ≡ (
      (
        hash_weight
            (stored local_redis one_hash local-IsRedis settings new_store)
            (codes "GOLD")
            (pos 1),
        none,
      ),
      raced,
    ))
set_queue_weight-stale_example =
    set_queue_weight-stale local_redis one_hash local-IsRedis settings (codes "GOLD") (pos 9)
      (pos 1) new_store old_weights.0 old_read written_between

abbrev dynamic : DynamicConfig OneHash
dynamic = record { cache = (codes "retry", old_weights.0) ∷ []; readers = 0; world = old_weights }

no_number : atoi (codes "five") ≡ none
unfolding atoi
no_number = refl

refreshed :
    (refresh_namespace local_redis (codes "retry") (record dynamic {
      world =
          (local_redis.hset
            (config_key (codes "retry"))
            ((codes "max", codes "five") ∷ [])
            dynamic.world).1;
    })).0
    ≡ none
unfolding refresh_namespace
refreshed = refl

get_int-set_all_crash_example :
    get_int
      (codes "retry")
      (codes "max")
      (pos 1)
      (set_all local_redis (codes "retry") ((codes "max", codes "five") ∷ []) dynamic).1
    ≡ none
get_int-set_all_crash_example =
    get_int-set_all_crash local_redis one_hash local-IsRedis (codes "retry") (codes "max")
      (codes "five") (pos 1) dynamic no_number refl refl refreshed

abbrev defaults : List (Str × Str)
defaults = (codes "GOLD", codes "1") ∷ (codes "NEW", codes "2") ∷ []

abbrev scheduler : PriorityScheduler
scheduler = new_priority_scheduler (record {
  default_weight = pos 2;
  credit_multiplier = pos 10;
  refill_period = pos 100000000;
  max_starvation_age = pos 10000000000;
})

weights_loaded : (load_weights local_redis settings new_store scheduler).0.0 ≡ none
unfolding load_weights loaded get_queue_weights fetch_weights_from_redis fetch_read fetch_store
weights_loaded = refl

load_weights-follows_example :
    (get_or_create_queue_state
      (codes "GOLD")
      5
      (load_weights local_redis settings new_store scheduler).0.1).0.weight
    ≡ hash_weight
        (stored local_redis one_hash local-IsRedis settings new_store)
        (codes "GOLD")
        scheduler.default_weight
load_weights-follows_example =
    load_weights-follows local_redis one_hash local-IsRedis settings new_store scheduler
      (codes "GOLD") 5 new_store-IsCoherent weights_loaded
