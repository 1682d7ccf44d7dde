-- ===== src/Service/Scheduler/Followed.antt =====
-- The weights of the queues of internal/sms/service/priority_scheduler.go are those in Redis.
use sms_mno_gateway.Base.{
  ℕ, ℤ, pos, negsuc, true, Option, none, some, or_else, Str, str_eq, str_eq_iff, List, [], ◌∷◌,
  lookup, ◌⊎◌, inl, inr, ◌≡◌, refl, ap, ◌∙◌, arith, Bool-cases, if_split,
}
use sms_mno_gateway.Domain.Errors.{Error}
use sms_mno_gateway.Redis.{RedisClient, IsRedis, HasUniqueKeys}
use sms_mno_gateway.Redis.PriorityStore.{
  StoreSettings, Store, parse_weights, fetch_read, fetch_store, fetch_weights_from_redis,
  get_queue_weights,
}
use sms_mno_gateway.Redis.PriorityStore.Coherent.{IsCoherent, stored}
use sms_mno_gateway.Redis.PriorityStore.Exact.{hash_weight, lookup-parse_weights}
use sms_mno_gateway.Service.Scheduler.{QueueState, PriorityScheduler}
use sms_mno_gateway.Service.Scheduler.Refill.{Channels, resize_credit_channel}
use sms_mno_gateway.Service.Scheduler.Weights.{
  eq_ℤ, set_queue_weight, reweigh_queues, channels_of, update_weights, new_queue_state, entered,
  get_or_create_queue_state,
}
use sms_mno_gateway.Service.Scheduler.Loading.{loaded, load_weights}

eq_ℤ-eq : (a b : ℤ) → eq_ℤ a b ≡ true → a ≡ b
unfolding eq_ℤ
eq_ℤ-eq (pos a) (pos b) h = ground arith
eq_ℤ-eq (pos a) (negsuc b) h = ground arith
eq_ℤ-eq (negsuc a) (pos b) h = ground arith
eq_ℤ-eq (negsuc a) (negsuc b) h = ground arith

set_queue_weight-weight :
    (multiplier w : ℤ) (qs : QueueState) (ch : Channels)
    → (set_queue_weight multiplier w qs ch).0.weight ≡ w
unfolding set_queue_weight resize_credit_channel
set_queue_weight-weight multiplier w qs ch =
    if_split (λ (r : QueueState × Channels). r.0.weight ≡ w) (eq_ℤ qs.weight w) _ _
      (λ same. eq_ℤ-eq qs.weight w same) (λ other. refl)

-- Every queue that exists has the weight that it is given.
reweigh_queues-weight :
    (s : PriorityScheduler) (weights : List (Str × ℤ)) (queues : List (Str × QueueState))
    (ch : Channels) (name : Str) (qs : QueueState)
    → lookup name (reweigh_queues s weights queues ch).0 ≡ some qs
    → qs.weight ≡ or_else (lookup name weights) s.default_weight
unfolding reweigh_queues lookup
reweigh_queues-weight s weights [] ch name qs h = absurd (cc h)
reweigh_queues-weight s weights ((k, q) ∷ rest) ch name qs h =
    let w = or_else (lookup k weights) s.default_weight in
    let r = set_queue_weight s.credit_multiplier w q ch in
    let given = set_queue_weight-weight s.credit_multiplier w q ch in
    elim (Bool-cases (str_eq k name)) [
      | inl same ↦
          let found : some r.0 ≡ some qs = (rw same at h) in
          let key = (str_eq_iff k name).0 same in rw (← key) cc
      | inr other ↦ reweigh_queues-weight s weights rest r.1 name qs (rw other at h)
    ]

entered-weight :
    (o : Option QueueState) (name : Str) (now : ℕ) (s : PriorityScheduler)
    → ((qs : QueueState)
        → o ≡ some qs
        → qs.weight ≡ or_else (lookup name s.weights) s.default_weight)
    → (entered o name now s).0.weight ≡ or_else (lookup name s.weights) s.default_weight
unfolding entered new_queue_state
entered-weight none name now s h = refl
entered-weight (some qs) name now s h = h qs refl

-- A queue that the scheduler has or makes.
queue_weight :
    (weights : List (Str × ℤ)) (s : PriorityScheduler) (name : Str) (now : ℕ)
    → (get_or_create_queue_state name now (update_weights weights s)).0.weight
      ≡ or_else (lookup name weights) s.default_weight
unfolding get_or_create_queue_state update_weights
queue_weight weights s name now =
    let updated = update_weights weights s in
    entered-weight (lookup name updated.queues) name now updated
      (λ qs found. reweigh_queues-weight s weights s.queues (channels_of s) name qs found)

module _ {W : Type 0} (redis : RedisClient W) (hash : Str → W → List (Str × Str))
    (law : IsRedis redis hash) (c : StoreSettings) where
  fetched_weights :
      (r : List (Str × Str) ⊎ Error) (store : Store W) (h : List (Str × Str))
      (weights : List (Str × ℤ))
      → ((result : List (Str × Str)) → r ≡ inl result → result ≡ h)
      → (fetch_store redis c r store).0 ≡ inl weights
      → weights ≡ parse_weights h
  unfolding fetch_store
  fetched_weights (inr e) store h weights read found = absurd (cc found)
  fetched_weights (inl result) store h weights read found = let same = read result refl in cc

  read_weights :
      (store : Store W) (weights : List (Str × ℤ))
      → IsCoherent redis hash law c store
      → (get_queue_weights redis c store).0 ≡ inl weights
      → weights ≡ parse_weights (stored redis hash law c store)
  unfolding get_queue_weights fetch_weights_from_redis fetch_read
  read_weights store weights coherent =
      let r = redis.hget_all c.weights_key store.world in
      if_split
        (λ (r : (List (Str × ℤ) ⊎ Error) × Store W).
          r.0 ≡ inl weights → weights ≡ parse_weights (stored redis hash law c store))
        store.cache_valid _ _ (λ valid found. let cached = coherent.cached valid in cc)
        (λ miss found.
          fetched_weights r.0 (record store { world = r.1 }) (stored redis hash law c store) weights
            (λ result read. law.got_all c.weights_key store.world result read) found)

  loaded-follows :
      (r : List (Str × ℤ) ⊎ Error) (h : List (Str × Str)) (s : PriorityScheduler) (name : Str)
      (now : ℕ)
      → HasUniqueKeys h
      → ((weights : List (Str × ℤ)) → r ≡ inl weights → weights ≡ parse_weights h)
      → (loaded r s).0 ≡ none
      → (get_or_create_queue_state name now (loaded r s).1).0.weight
        ≡ hash_weight h name s.default_weight
  unfolding loaded hash_weight
  loaded-follows (inr e) h s name now unique read fine = absurd (cc fine)
  loaded-follows (inl weights) h s name now unique read fine =
      queue_weight weights s name now
      ∙ ap (λ ws. or_else (lookup name ws) s.default_weight) (read weights refl)
      ∙ ap (λ o. or_else o s.default_weight) (lookup-parse_weights name h unique)

  -- With a client that answers from the hash of the weights and a store whose valid cache agrees with
  -- it: once loadWeights has returned without an error, every queue, whether the scheduler has it or
  -- makes it on its first use, has the weight of the hash, or the default weight if the hash has none
  -- for it or one that is no int.
  pub load_weights-follows :
      (store : Store W) (s : PriorityScheduler) (name : Str) (now : ℕ)
      → IsCoherent redis hash law c store
      → (load_weights redis c store s).0.0 ≡ none
      → (get_or_create_queue_state name now (load_weights redis c store s).0.1).0.weight
        ≡ hash_weight (stored redis hash law c store) name s.default_weight
  unfolding load_weights
  load_weights-follows store s name now coherent fine =
      loaded-follows (get_queue_weights redis c store).0 (stored redis hash law c store) s name now
        (law.unique c.weights_key store.world)
        (λ weights found. read_weights store weights coherent found) fine
