-- ===== src/Redis/DynamicConfig/Writes.antt =====
-- What the writes of internal/sms/adapters/redis/dynamic_config.go make GetInt return.
use sms_mno_gateway.Base.{
  suc, ◌≤◌, ℤ, pos_part, neg_part, int_max, Option, none, some, Str, atoi, itoa, List, [], ◌∷◌,
  lookup, put, ◌⊎◌, inl, inr, ◌≡◌, ◌≢◌, refl, ap, ◌∙◌,
}
use sms_mno_gateway.Domain.Errors.{Error}
use sms_mno_gateway.Redis.{RedisClient, IsRedis, put_all}
use sms_mno_gateway.Redis.Hashes.{lookup-put_self}
use sms_mno_gateway.Redis.DynamicConfig.{
  DynamicConfig, config_key, field_of, cached_text, get_int, store_fields, refresh_namespace,
  publish_change, cache_field, after_set_int, set_int, after_set_all, set_all, after_seed, seed,
}
use sms_mno_gateway.Redis.DynamicConfig.Reads.{first_of, lookup-put_missing, read-crash, read-int}

module _ {W : Type 0} (redis : RedisClient W) (hash : Str → W → List (Str × Str))
    (law : IsRedis redis hash) where
  store_fields-readers :
      (namespace : Str) (r : List (Str × Str) ⊎ Error) (s : DynamicConfig W)
      → (store_fields redis r namespace s).1.readers ≡ s.readers
  unfolding store_fields
  store_fields-readers namespace (inr e) s = refl
  store_fields-readers namespace (inl h) s = refl

  store_fields-text :
      (namespace field : Str) (r : List (Str × Str) ⊎ Error) (s : DynamicConfig W)
      → (store_fields redis r namespace s).0 ≡ none
      → (h : List (Str × Str)) × (r ≡ inl h)
        × (cached_text namespace field (store_fields redis r namespace s).1 ≡ lookup field h)
  unfolding store_fields cached_text field_of
  store_fields-text namespace field (inr e) s fine = absurd (cc fine)
  store_fields-text namespace field (inl h) s fine =
      (h, refl, ap (field_of field) (lookup-put_self namespace h s.cache))

  refresh-text :
      (namespace field : Str) (s : DynamicConfig W)
      → (refresh_namespace redis namespace s).0 ≡ none
      → cached_text namespace field (refresh_namespace redis namespace s).1
        ≡ lookup field (hash (config_key namespace) s.world)
  unfolding refresh_namespace
  refresh-text namespace field s fine =
      let r = redis.hget_all (config_key namespace) s.world in
      let (h, read, text) = store_fields-text namespace field r.0 (record s { world = r.1 }) fine in
      text ∙ ap (lookup field) (law.got_all (config_key namespace) s.world h read)

  after_seed-text :
      (o : Option Error) (namespace field : Str) (s : DynamicConfig W)
      → (after_seed redis o namespace s).0 ≡ none
      → (o ≡ none)
        × (cached_text namespace field (after_seed redis o namespace s).1
            ≡ lookup field (hash (config_key namespace) s.world))
  unfolding after_seed
  after_seed-text (some e) namespace field s fine = absurd (cc fine)
  after_seed-text none namespace field s fine = (refl, refresh-text namespace field s fine)

  -- With a client that answers from its hashes: after Seed has returned no error, the cache has the
  -- text that Redis had for a field before, and the default for a field that was absent.
  pub seed_keeps :
      (namespace field : Str) (defaults : List (Str × Str)) (s : DynamicConfig W)
      → (seed redis namespace defaults s).0 ≡ none
      → cached_text namespace field (seed redis namespace defaults s).1
        ≡ first_of (lookup field (hash (config_key namespace) s.world)) (lookup field defaults)
  unfolding seed
  seed_keeps namespace field defaults s fine =
      let r = redis.hset_nx (config_key namespace) defaults s.world in
      let (seeded, text) = after_seed-text r.0 namespace field (record s { world = r.1 }) fine in
      text
      ∙ ap (lookup field) (law.was_seeded (config_key namespace) defaults s.world seeded)
      ∙ lookup-put_missing field defaults (hash (config_key namespace) s.world)

  cache_field-text :
      (fields : Option (List (Str × Str))) (namespace field text : Str) (s : DynamicConfig W)
      → fields ≢ none
      → cached_text namespace field (cache_field redis fields namespace field text s) ≡ some text
  unfolding cache_field cached_text field_of
  cache_field-text none namespace field text s there = absurd (there refl)
  cache_field-text (some fields) namespace field text s there =
      ap (field_of field) (lookup-put_self namespace (put field text fields) s.cache)
      ∙ lookup-put_self field text fields

  cache_field-readers :
      (fields : Option (List (Str × Str))) (namespace field text : Str) (s : DynamicConfig W)
      → (cache_field redis fields namespace field text s).readers ≡ s.readers
  unfolding cache_field
  cache_field-readers none namespace field text s = refl
  cache_field-readers (some fields) namespace field text s = refl

  -- With no reader of the cache: once SetInt has written an int to a field of a namespace that is
  -- cached, whether or not it could publish the change, GetInt returns it and changes nothing.
  pub get_int-set_int :
      (namespace field : Str) (d v : ℤ) (s : DynamicConfig W)
      → pos_part v ≤ int_max
      → neg_part v ≤ suc int_max
      → lookup namespace s.cache ≢ none
      → s.readers ≡ 0
      → (redis.hset (config_key namespace) ((field, itoa v) ∷ []) s.world).0 ≡ none
      → get_int namespace field d (set_int redis namespace field v s).1
        ≡ some (v, (set_int redis namespace field v s).1)
  unfolding set_int after_set_int publish_change cached_text
  get_int-set_int namespace field d v s upper lower there idle set =
      let w' = (redis.hset (config_key namespace) ((field, itoa v) ∷ []) s.world).1 in
      let s' : DynamicConfig W = record s { world = w' } in
      let fields = lookup namespace s.cache in
      let t = cache_field redis fields namespace field (itoa v) s' in
      rw (set, after_set_int)
        (read-int namespace field d v (publish_change redis namespace t).1 upper lower
          (cache_field-text fields namespace field (itoa v) s' there)
          (cache_field-readers fields namespace field (itoa v) s' ∙ idle))

  -- With a client that answers from its hashes, and no reader of the cache: when SetAll writes a text
  -- that is no int to a field, and its refresh returns no error, the next GetInt of the field ends the
  -- process, since it unlocks the mutex twice.
  pub get_int-set_all_crash :
      (namespace field raw : Str) (d : ℤ) (s : DynamicConfig W)
      → atoi raw ≡ none
      → s.readers ≡ 0
      → (redis.hset (config_key namespace) ((field, raw) ∷ []) s.world).0 ≡ none
      → (refresh_namespace redis namespace (record s {
        world = (redis.hset (config_key namespace) ((field, raw) ∷ []) s.world).1;
      })).0
        ≡ none
      → get_int namespace field d (set_all redis namespace ((field, raw) ∷ []) s).1 ≡ none
  unfolding set_all after_set_all publish_change cached_text put_all refresh_namespace
  get_int-set_all_crash namespace field raw d s bad idle set read =
      let w' = (redis.hset (config_key namespace) ((field, raw) ∷ []) s.world).1 in
      let s' : DynamicConfig W = record s { world = w' } in
      let r = redis.hget_all (config_key namespace) w' in
      let text =
        refresh-text namespace field s' read
        ∙ ap (lookup field) (law.was_set (config_key namespace) ((field, raw) ∷ []) s.world set)
        ∙ lookup-put_self field raw (hash (config_key namespace) s.world) in
      rw (set, after_set_all)
        (read-crash namespace field raw d
          (publish_change redis namespace (refresh_namespace redis namespace s').1).1 text
          (store_fields-readers namespace r.0 (record s { world = r.1 }) ∙ idle) bad)
