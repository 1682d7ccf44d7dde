-- ===== src/Mno/Safety.antt =====
-- What the SDP sender of internal/sms/adapters/mno/safaricom_sdp.go never sends.
use sms_mno_gateway.Base.{
  ℕ, zero, suc, false, ◌==◌, none, some, Str, List, [], ◌∷◌, ◌⊎◌, inl, inr, is_empty, str_eq_refl,
  ◌≡◌, refl, All, Bool-cases, Option-cases, Sum-cases,
}
use sms_mno_gateway.Domain.Errors.{Error, foreign}
use sms_mno_gateway.Domain.Message.{Message}
use sms_mno_gateway.Domain.Result.{permanent, new_permanent_result}
use sms_mno_gateway.Mno.{HttpResponse}
use sms_mno_gateway.Mno.Sdp.{
  SafaricomSdpSender, checked_token, read_auth, auth_request, fetch_token, fetch_rounds, get_token,
}
use sms_mno_gateway.Mno.SdpBatch.{all_results, mixed_sender, all_failed_since, batch_of, send_batch}

-- A token, if there is one, is not empty.
abbrev IsToken : Str ⊎ Error → Type 0
IsToken (inl token) = is_empty token ≡ false
IsToken (inr e) = Unit

All-permanent :
    (e : Message → Error) (latency now : ℕ) (ms : List Message)
    → All
        (λ r. r.outcome ≡ permanent)
        (all_results (λ m. new_permanent_result m (e m) latency now) ms)
unfolding all_results new_permanent_result
All-permanent e latency now [] = tt
All-permanent e latency now (m ∷ ms) = (refl, All-permanent e latency now ms)

module _ {W : Type 0} (s : SafaricomSdpSender W) where
  checked_token-IsToken : (t : Str ⊎ Error) → IsToken (checked_token s t)
  unfolding checked_token
  checked_token-IsToken (inl []) = tt
  checked_token-IsToken (inl (c ∷ cs)) = refl
  checked_token-IsToken (inr e) = tt

  read_auth-IsToken : (r : HttpResponse ⊎ Error) → IsToken (read_auth s r)
  unfolding read_auth
  read_auth-IsToken (inl r) = elim (Bool-cases (r.status_code == 200)) [
    | inl ok ↦ rw ok (checked_token-IsToken (s.decode_token r))
    | inr failed ↦ rw failed tt
  ]
  read_auth-IsToken (inr e) = tt

  fetch_token-IsToken : (w : W) → IsToken (fetch_token s w).0
  unfolding fetch_token
  fetch_token-IsToken w = elim (Option-cases (s.http_client.new_request s.auth_url)) [
    | inl fine ↦
        rw (fine, fetch_token) (read_auth-IsToken (s.http_client.send_request (auth_request s) w).0)
    | inr (e, failing) ↦ rw (failing, fetch_token) tt
  ]

  fetch_rounds-IsToken :
      (left done : ℕ) (last : Error) (w : W) → IsToken (fetch_rounds s left done last w).0
  unfolding fetch_rounds
  fetch_rounds-IsToken zero done last w = tt
  fetch_rounds-IsToken (suc left) done last w =
      let fetched = fetch_token-IsToken w in
      elim (Sum-cases (fetch_token s w).0) [
        | inl (token, e) ↦ rw (e, fetch_rounds) (rw e at fetched)
        | inr (err, e) ↦ elim (Option-cases (s.pause (suc done) (fetch_token s w).1).0) [
          | inl on ↦ rw (e, on, fetch_rounds) (fetch_rounds-IsToken left (suc done) err _)
          | inr (ended, off) ↦ rw (e, off, fetch_rounds) tt
        ]
      ]

  get_token-IsToken : (w : W) → IsToken (get_token s w).0
  unfolding get_token
  get_token-IsToken w =
      let cached = s.token_cache.get s.token_key w in
      elim (Option-cases cached.0.0) [
        | inl missing ↦ rw (missing, get_token) (fetch_rounds-IsToken 10 0 (foreign []) cached.1)
        | inr (token, found) ↦ elim (Bool-cases (is_empty token)) [
          | inl blank ↦
              rw (found, blank, get_token) (fetch_rounds-IsToken 10 0 (foreign []) cached.1)
          | inr full ↦ rw (found, full, get_token) full
        ]
      ]

  -- getToken never returns an empty token, from the cache or from the authentication service.
  pub get_token_nonempty :
      (w : W) (token : Str) → (get_token s w).0 ≡ inl token → is_empty token ≡ false
  get_token_nonempty w token e = (rw e at (get_token-IsToken w))

  -- A batch whose messages have different senders is not sent: every message gets a permanent result,
  -- and the world has only been asked the time, twice.
  pub send_batch_mixed :
      (m : Message) (ms : List Message) (w : W) (other : Str × ℕ)
      → mixed_sender m.sender 1 ms ≡ some other
      → let start = s.clock w in
        let (rs, w') = send_batch s (m ∷ ms) w in
        All (λ r. r.outcome ≡ permanent) rs × (w' ≡ (s.clock start.1).1)
  unfolding send_batch batch_of all_failed_since
  send_batch_mixed m ms w other mixed = rw (mixed, batch_of) (All-permanent _ _ _ (m ∷ ms), refl)

-- Messages of one sender are not mixed.
pub mixed_sender_same :
    (first : Str) (i : ℕ) (ms : List Message)
    → All (λ m. first ≡ m.sender) ms
    → mixed_sender first i ms ≡ none
unfolding mixed_sender
mixed_sender_same first i [] h = refl
mixed_sender_same first i (m ∷ ms) h =
    rw (← h.0, str_eq_refl first) (mixed_sender_same first (suc i) ms h.1)
