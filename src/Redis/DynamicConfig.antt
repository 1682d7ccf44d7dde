-- ===== src/Redis/DynamicConfig.antt =====
-- internal/sms/adapters/redis/dynamic_config.go.
pub mod Reads
pub mod Writes
use sms_mno_gateway.Base.{
  ℕ, zero, suc, ℤ, Bool, true, false, if◌then◌else◌, Option, none, some, Str, codes, str_eq, atoi,
  itoa, List, [], ◌∷◌, ◌++◌, lookup, put, ◌⊎◌, inl, inr, ◌>>=◌,
}
use sms_mno_gateway.Domain.Errors.{Error}
use sms_mno_gateway.Ports.Queues.{ns_retry, ns_scheduler_promotional}
use sms_mno_gateway.Redis.{RedisClient}

abbrev dyn_config_key_prefix : Str
dyn_config_key_prefix = codes "sms:config:"

abbrev dyn_config_channel : Str
dyn_config_channel = codes "sms:config:__changes__"

abbrev ns_rate_limits : Str
ns_rate_limits = codes "rate_limits"

-- The cached hashes, how often the mutex is locked for reading, and the world.
pub record DynamicConfig (W : Type 0) : Type 0 where
  pub cache : List (Str × List (Str × Str))
  pub readers : ℕ
  pub world : W

unfoldable pub config_key : Str → Str
config_key namespace = dyn_config_key_prefix ++ namespace

field_of : Str → Option (List (Str × Str)) → Option Str
unfolding lookup
field_of field none = none
field_of field (some fields) = lookup field fields

module _ {W : Type 0} where
  unfoldable pub r_lock : DynamicConfig W → DynamicConfig W
  r_lock s = record s { readers = suc s.readers }

  released : ℕ → DynamicConfig W → Option (DynamicConfig W)
  released zero s = none
  released (suc n) s = some (record s { readers = n })

  -- RUnlock, whose fatal error on a mutex that is not locked for reading ends the process: none.
  unfoldable pub r_unlock : DynamicConfig W → Option (DynamicConfig W)
  unfolding released
  r_unlock s = released s.readers s

  answered : ℤ → Option (DynamicConfig W) → Option (ℤ × DynamicConfig W)
  answered v none = none
  answered v (some s) = some (v, s)

  unlock_again : Option ℤ → ℤ → Option (DynamicConfig W) → Option (ℤ × DynamicConfig W)
  unfolding answered r_unlock
  unlock_again v default_val none = none
  unlock_again (some v) default_val (some s) = some (v, s)
  unlock_again none default_val (some s) = answered default_val (r_unlock s)

  read_field : Option Str → ℤ → DynamicConfig W → Option (ℤ × DynamicConfig W)
  unfolding unlock_again answered r_unlock
  read_field (some raw) default_val s = unlock_again (atoi raw) default_val (r_unlock s)
  read_field none default_val s = answered default_val (r_unlock s)

  unfoldable pub cached_text : Str → Str → DynamicConfig W → Option Str
  unfolding lookup field_of
  cached_text namespace field s = field_of field (lookup namespace s.cache)

  unfoldable pub get_int : Str → Str → ℤ → DynamicConfig W → Option (ℤ × DynamicConfig W)
  unfolding read_field cached_text r_lock
  get_int namespace field default_val s =
      let locked = r_lock s in read_field (cached_text namespace field locked) default_val locked

module _ {W : Type 0} (redis : RedisClient W) where
  store_fields : List (Str × Str) ⊎ Error → Str → DynamicConfig W → Option Error × DynamicConfig W
  unfolding put
  store_fields (inr e) namespace s = (some e, s)
  store_fields (inl result) namespace s = (none, record s { cache = put namespace result s.cache })

  unfoldable pub refresh_namespace : Str → DynamicConfig W → Option Error × DynamicConfig W
  unfolding store_fields config_key
  refresh_namespace namespace s =
      let r = redis.hget_all (config_key namespace) s.world in
      store_fields r.0 namespace (record s { world = r.1 })

  -- The three known namespaces, whose errors are logged.
  unfoldable pub new_dynamic_config : W → DynamicConfig W
  unfolding refresh_namespace
  new_dynamic_config w =
      let s0 : DynamicConfig W = record { cache = []; readers = 0; world = w } in
      let s1 = (refresh_namespace ns_retry s0).1 in
      let s2 = (refresh_namespace ns_rate_limits s1).1 in
      (refresh_namespace ns_scheduler_promotional s2).1

  unfoldable pub publish_change : Str → DynamicConfig W → Option Error × DynamicConfig W
  publish_change namespace s =
      let r = redis.publish dyn_config_channel namespace s.world in (r.0, record s { world = r.1 })

  cache_field : Option (List (Str × Str)) → Str → Str → Str → DynamicConfig W → DynamicConfig W
  unfolding put
  cache_field none namespace field text s = s
  cache_field (some fields) namespace field text s = record s {
    cache = put namespace (put field text fields) s.cache;
  }

  after_set_int : Option Error → Str → Str → ℤ → DynamicConfig W → Option Error × DynamicConfig W
  unfolding cache_field publish_change lookup
  after_set_int (some e) namespace field value s = (some e, s)
  after_set_int none namespace field value s =
      publish_change namespace
        (cache_field (lookup namespace s.cache) namespace field (itoa value) s)

  unfoldable pub set_int : Str → Str → ℤ → DynamicConfig W → Option Error × DynamicConfig W
  unfolding after_set_int config_key
  set_int namespace field value s =
      let r = redis.hset (config_key namespace) ((field, itoa value) ∷ []) s.world in
      after_set_int r.0 namespace field value (record s { world = r.1 })

  unfoldable pub get_all : Str → DynamicConfig W → (List (Str × Str) ⊎ Error) × DynamicConfig W
  unfolding config_key
  get_all namespace s =
      let r = redis.hget_all (config_key namespace) s.world in (r.0, record s { world = r.1 })

  after_set_all : Option Error → Str → DynamicConfig W → Option Error × DynamicConfig W
  unfolding refresh_namespace publish_change
  after_set_all (some e) namespace s = (some e, s)
  after_set_all none namespace s = publish_change namespace (refresh_namespace namespace s).1

  -- The values as the text that the client writes.
  unfoldable pub set_all : Str → List (Str × Str) → DynamicConfig W → Option Error × DynamicConfig W
  unfolding after_set_all config_key
  set_all namespace values s =
      let r = redis.hset (config_key namespace) values s.world in
      after_set_all r.0 namespace (record s { world = r.1 })

  after_seed : Option Error → Str → DynamicConfig W → Option Error × DynamicConfig W
  unfolding refresh_namespace
  after_seed (some e) namespace s = (some e, s)
  after_seed none namespace s = refresh_namespace namespace s

  unfoldable pub seed : Str → List (Str × Str) → DynamicConfig W → Option Error × DynamicConfig W
  unfolding after_seed config_key
  seed namespace defaults s =
      let r = redis.hset_nx (config_key namespace) defaults s.world in
      after_seed r.0 namespace (record s { world = r.1 })

  -- A message in the goroutine of Watch; `signal` tells whether its channel, which holds one value,
  -- is full.
  unfoldable pub watch_message : Str → Str → Bool × DynamicConfig W → Bool × DynamicConfig W
  unfolding refresh_namespace
  watch_message namespace payload (signal, s) =
      if str_eq payload namespace then (true, (refresh_namespace namespace s).1) else (signal, s)
