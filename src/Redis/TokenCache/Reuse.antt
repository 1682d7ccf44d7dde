-- ===== src/Redis/TokenCache/Reuse.antt =====
-- The token of internal/sms/adapters/mno/safaricom_sdp.go with the cache of
-- internal/sms/adapters/redis/token_cache.go.
use sms_mno_gateway.Base.{
  ℕ, zero, suc, ℤ, false, Option, none, some, Str, [], inl, inr, is_empty, ◌≡◌, ap, ◌∙◌,
  Option-cases, Sum-cases, Bool-cases,
}
use sms_mno_gateway.Domain.Errors.{Error, foreign}
use sms_mno_gateway.Mno.Sdp.{SafaricomSdpSender, fetch_token, fetch_rounds, get_token}
use sms_mno_gateway.Redis.TokenCache.{KeyClient, found_token, get_cached, token_cache}
use sms_mno_gateway.Mno.Safety.{get_token_nonempty}

-- A Redis that answers: `value` is what a key holds. A get changes no key, and a value that is set
-- can be read.
pub record IsAnswering {W : Type 0} (client : KeyClient W) (value : Str → W → Option Str)
    : Type 0 where
  pub got : (k : Str) (w : W) → (client.get k w).0 ≡ inl (value k w)
  pub got_kept : (k j : Str) (w : W) → value j (client.get k w).1 ≡ value j w
  pub was_set : (k v : Str) (ttl : ℤ) (w : W) → value k (client.set k v ttl w).1 ≡ some v

module _ {W : Type 0} (client : KeyClient W) (value : Str → W → Option Str)
    (law : IsAnswering client value) (s : SafaricomSdpSender W)
    (cached : s.token_cache ≡ token_cache client) where
  stored : (k v : Str) (ttl : ℤ) (w : W) → value k (s.token_cache.set k v ttl w).1 ≡ some v
  unfolding token_cache
  stored k v ttl w = ap (λ c. value k (c.set k v ttl w).1) cached ∙ law.was_set k v ttl w

  read : (k : Str) (w : W) → s.token_cache.get k w ≡ ((value k w, none), (client.get k w).1)
  unfolding token_cache get_cached found_token
  read k w =
      ap (λ c. c.get k w) cached ∙ ap (λ o. (found_token o, (client.get k w).1)) (law.got k w)

  read_value : (k : Str) (w : W) → (s.token_cache.get k w).0.0 ≡ value k w
  read_value k w = ap (λ r. r.0.0) (read k w)

  read_world : (k : Str) (w : W) → (s.token_cache.get k w).1 ≡ (client.get k w).1
  read_world k w = ap (λ r. r.1) (read k w)

  fetch_rounds-stored :
      (left done : ℕ) (last : Error) (w : W) (token : Str)
      → (fetch_rounds s left done last w).0 ≡ inl token
      → value s.token_key (fetch_rounds s left done last w).1 ≡ some token
  unfolding fetch_rounds
  fetch_rounds-stored zero done last w token h = absurd (cc h)
  fetch_rounds-stored (suc left) done last w token h = elim (Sum-cases (fetch_token s w).0) [
    | inl (t, e) ↦
        let same : inl t ≡ inl token = (rw (e, fetch_rounds) at h) in
        let kept = stored s.token_key t s.token_ttl (fetch_token s w).1 in rw (e, fetch_rounds) cc
    | inr (err, e) ↦
        let paused = s.pause (suc done) (fetch_token s w).1 in
        elim (Option-cases paused.0) [
          | inl on ↦
              rw (e, on, fetch_rounds)
                (fetch_rounds-stored left (suc done) err paused.1 token
                  (rw (e, on, fetch_rounds) at h))
          | inr (ended, off) ↦ absurd (cc (rw (e, off, fetch_rounds) at h))
        ]
  ]

  get_token-cached :
      (w : W) (token : Str)
      → value s.token_key w ≡ some token
      → is_empty token ≡ false
      → get_token s w ≡ (inl token, (client.get s.token_key w).1)
  unfolding get_token
  get_token-cached w token held full =
      rw (read_value s.token_key w, held, full, get_token)
        (ap (λ v. (inl token, v)) (read_world s.token_key w))

  get_token-stored :
      (w : W) (token : Str)
      → (get_token s w).0 ≡ inl token
      → value s.token_key (get_token s w).1 ≡ some token
  unfolding get_token
  get_token-stored w token h =
      let seen = read_value s.token_key w in
      let after = (s.token_cache.get s.token_key w).1 in
      let fetched = fetch_rounds-stored 10 0 (foreign []) after token in
      elim (Option-cases (value s.token_key w)) [
        | inl missing ↦ rw (seen, missing, get_token) (fetched (rw (seen, missing, get_token) at h))
        | inr (t, held) ↦ elim (Bool-cases (is_empty t)) [
          | inl blank ↦
              rw (seen, held, blank, get_token) (fetched (rw (seen, held, blank, get_token) at h))
          | inr full ↦
              let same : inl t ≡ inl token = (rw (seen, held, full, get_token) at h) in
              let kept = law.got_kept s.token_key s.token_key w in
              rw (seen, held, full, get_token, read_world s.token_key w) cc
        ]
      ]

  -- With a Redis that answers: the token that getToken returns is the one that the next call returns,
  -- and that call only reads the key: it does not ask the authentication service.
  pub get_token_reuses :
      (w : W) (token : Str)
      → (get_token s w).0 ≡ inl token
      → get_token s (get_token s w).1 ≡ (inl token, (client.get s.token_key (get_token s w).1).1)
  get_token_reuses w token h =
      get_token-cached (get_token s w).1 token (get_token-stored w token h)
        (get_token_nonempty s w token h)
