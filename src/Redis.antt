-- ===== src/Redis.antt =====
-- The Redis client library that internal/sms/adapters/redis uses.
pub mod Hashes
pub mod PriorityStore
pub mod DynamicConfig
pub mod TokenCache
use sms_mno_gateway.Base.{
  ℕ, Bool, Option, none, some, Str, str_eq, List, [], ◌∷◌, lookup, put, is_none, if◌then◌else◌, ◌⊎◌,
  inl, inr, ◌≡◌, ◌≢◌,
}
use sms_mno_gateway.Domain.Errors.{Error}

-- The commands of the client. A reply `redis.Nil` is the value none; values are written as text.
pub record RedisClient (W : Type 0) : Type 0 where
  pub exists : Str → W → (ℕ ⊎ Error) × W
  pub hget : Str → Str → W → (Option Str ⊎ Error) × W
  pub hget_all : Str → W → (List (Str × Str) ⊎ Error) × W
  pub hset : Str → List (Str × Str) → W → Option Error × W
  pub hset_nx : Str → List (Str × Str) → W → Option Error × W
  pub publish : Str → Str → W → Option Error × W

unfoldable pub put_all : List (Str × Str) → List (Str × Str) → List (Str × Str)
unfolding put
put_all [] h = h
put_all ((k, v) ∷ rest) h = put_all rest (put k v h)

-- HSETNX for each of the fields.
unfoldable pub put_missing : List (Str × Str) → List (Str × Str) → List (Str × Str)
unfolding put lookup
put_missing [] h = h
put_missing ((k, v) ∷ rest) h = put_missing rest (if is_none (lookup k h) then put k v h else h)

-- A hash has one value for each of its fields.
abbrev pub HasUniqueKeys {ℓ} : {A : Type ℓ} → List (Str × A) → Type ℓ
HasUniqueKeys [] = Unit
HasUniqueKeys ((k, v) ∷ rest) = (lookup k rest ≡ none) × HasUniqueKeys rest

-- What the adapters rely on: `hash` has the fields of a key. Reads and messages change no hash, and
-- a write that is answered without an error has been made. Of one that fails nothing is said: it may
-- have been made or not.
pub record IsRedis {W : Type 0} (redis : RedisClient W) (hash : Str → W → List (Str × Str))
    : Type 0 where
  pub unique : (k : Str) (w : W) → HasUniqueKeys (hash k w)
  pub got :
      (k f : Str) (w : W) (o : Option Str) → (redis.hget k f w).0 ≡ inl o → o ≡ lookup f (hash k w)
  pub got_kept : (k f j : Str) (w : W) → hash j (redis.hget k f w).1 ≡ hash j w
  pub got_all :
      (k : Str) (w : W) (h : List (Str × Str)) → (redis.hget_all k w).0 ≡ inl h → h ≡ hash k w
  pub got_all_kept : (k j : Str) (w : W) → hash j (redis.hget_all k w).1 ≡ hash j w
  pub was_set :
      (k : Str) (es : List (Str × Str)) (w : W)
      → (redis.hset k es w).0 ≡ none
      → hash k (redis.hset k es w).1 ≡ put_all es (hash k w)
  pub published : (c m k : Str) (w : W) → hash k (redis.publish c m w).1 ≡ hash k w
  pub was_seeded :
      (k : Str) (es : List (Str × Str)) (w : W)
      → (redis.hset_nx k es w).0 ≡ none
      → hash k (redis.hset_nx k es w).1 ≡ put_missing es (hash k w)
