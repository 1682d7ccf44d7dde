-- ===== src/Redis/TokenCache.antt =====
-- internal/sms/adapters/redis/token_cache.go, which fills the interface that the SDP sender uses.
pub mod Reuse
use sms_mno_gateway.Base.{ℕ, ℤ, Bool, true, false, ltb, Option, none, some, Str, ◌⊎◌, inl, inr}
use sms_mno_gateway.Domain.Errors.{Error}
use sms_mno_gateway.Mno.Sdp.{TokenCache}

-- The calls of the Redis client on keys. `get` gives none for redis.Nil.
pub record KeyClient (W : Type 0) : Type 0 where
  pub get : Str → W → (Option Str ⊎ Error) × W
  pub set : Str → Str → ℤ → W → Option Error × W
  pub del : Str → W → Option Error × W
  pub exists : Str → W → (ℕ ⊎ Error) × W
  pub ping : W → Option Error × W
  pub close : W → W

-- The value if it is found, and the error.
unfoldable pub found_token : Option Str ⊎ Error → Option Str × Option Error
found_token (inl o) = (o, none)
found_token (inr e) = (none, some e)

found_key : ℕ ⊎ Error → Bool × Option Error
found_key (inl n) = (ltb 0 n, none)
found_key (inr e) = (false, some e)

module _ {W : Type 0} (client : KeyClient W) where
  unfoldable pub get_cached : Str → W → (Option Str × Option Error) × W
  unfolding found_token
  get_cached key w = let r = client.get key w in (found_token r.0, r.1)

  unfoldable pub token_exists : Str → W → (Bool × Option Error) × W
  unfolding found_key
  token_exists key w = let r = client.exists key w in (found_key r.0, r.1)

  -- Set and Delete pass the client's error on.
  unfoldable pub token_cache : TokenCache W
  unfolding get_cached
  token_cache = record { get = get_cached; set = client.set; delete = client.del }

  checked_ping : Option Error → W → Option Error × W
  checked_ping none w = (none, w)
  checked_ping (some e) w = (some e, client.close w)

  -- NewTokenCache: its error.
  unfoldable pub new_token_cache : W → Option Error × W
  unfolding checked_ping
  new_token_cache w = let r = client.ping w in checked_ping r.0 r.1
