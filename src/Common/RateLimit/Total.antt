-- ===== src/Common/RateLimit/Total.antt =====
-- The main limiters of internal/common/ratelimit/limiter.go are there for every network.
use sms_mno_gateway.Base.{
  ℕ, ℤ, true, Option, none, some, Str, str_eq, List, [], ◌∷◌, lookup, put, ◌≡◌, ◌≢◌, refl,
  Bool-cases, Option-cases, inl, inr,
}
use sms_mno_gateway.Domain.Network.{
  Network, network_string, safaricom, airtel, telkom, equitel, cm, intnl, unknown,
}
use sms_mno_gateway.Ports.Queues.{GetInt}
use sms_mno_gateway.Common.RateLimit.{
  RateLibrary, RateLimits, RateConfig, RetryConfig, limiter_of, get_main_limiter, set_main_limiter,
  new_limits, set_retry, set_retries, with_retry_config, set_found, set_rate, reset_each, reset,
  update_rates, on_bucket, limits_wait,
}
use sms_mno_gateway.Common.RateLimit.Changes.{
  Change, given_retry, given_rate, given_config, given_reset, waited, waited_retry, waited_one,
  waited_one_retry, asked, asked_retry, change, changes,
}

lookup-put :
    (k j : Str) (a : ℕ) (m : List (Str × ℕ)) → lookup k m ≢ none → lookup k (put j a m) ≢ none
unfolding lookup put
lookup-put k j a [] there = absurd (there refl)
lookup-put k j a ((i, b) ∷ rest) there = elim (Bool-cases (str_eq i j)) [
  | inl same ↦ elim (Bool-cases (str_eq i k)) [
    | inl hit ↦ rw (same, lookup, hit) (λ e. cc e)
    | inr miss ↦ rw (same, lookup, miss) (rw miss at there)
  ]
  | inr other ↦ elim (Bool-cases (str_eq i k)) [
    | inl hit ↦ rw (other, lookup, hit) (λ e. cc e)
    | inr miss ↦ rw (other, lookup, miss) (lookup-put k j a rest (rw miss at there))
  ]
]

lookup-put_same :
    (k : Str) (a : ℕ) (m : List (Str × ℕ)) → str_eq k k ≡ true → lookup k (put k a m) ≢ none
unfolding lookup put
lookup-put_same k a [] self = rw (lookup, self) (λ e. cc e)
lookup-put_same k a ((i, b) ∷ rest) self = elim (Bool-cases (str_eq i k)) [
  | inl same ↦ rw (same, lookup, same) (λ e. cc e)
  | inr other ↦ rw (other, lookup, other) (lookup-put_same k a rest self)
]

HasUnknown : RateLimits → Type 0
HasUnknown l = lookup (network_string unknown) l.main ≢ none

HasUnknown-limiter : (l : RateLimits) (n : Network) → HasUnknown l → get_main_limiter l n ≢ none
unfolding HasUnknown get_main_limiter limiter_of
HasUnknown-limiter l n h = elim (Option-cases (lookup (network_string n) l.main)) [
  | inr (b, there) ↦ rw (there, limiter_of) (λ e. cc e)
  | inl missing ↦ rw (missing, limiter_of) h
]

module _ {W : Type 0} (lib : RateLibrary W) where
  Keeps : (RateLimits → W → RateLimits × W) → Type 0
  Keeps f = (l : RateLimits) (w : W) → HasUnknown l → HasUnknown (f l w).0

  set_retries-main :
      (cfg : RetryConfig) (l : RateLimits) (w : W) → (set_retries lib cfg l w).0.main ≡ l.main
  unfolding set_retries set_retry
  set_retries-main cfg l w = refl

  with_retry_config-Keeps : (cfg : Option RetryConfig) → Keeps (with_retry_config lib cfg)
  unfolding with_retry_config Keeps HasUnknown
  with_retry_config-Keeps none l w h = h
  with_retry_config-Keeps (some cfg) l w h = rw (set_retries-main cfg l w) h

  set_found-Keeps : (o : Option ℕ) (n : Network) (rps : ℤ) → Keeps (set_found lib o n rps)
  unfolding set_found Keeps HasUnknown
  set_found-Keeps none n rps l w h = h
  set_found-Keeps (some k) n rps l w h = h

  set_rate-Keeps : (n : Network) (rps : ℤ) → Keeps (set_rate lib n rps)
  unfolding set_rate Keeps
  set_rate-Keeps n rps l w h = set_found-Keeps (lookup (network_string n) l.main) n rps l w h

  update_rates-Keeps : (get_int : GetInt) → Keeps (update_rates lib get_int)
  unfolding update_rates Keeps
  update_rates-Keeps get_int l w h = set_rate-Keeps unknown _ _ _ (
      set_rate-Keeps intnl _ _ _ (
        set_rate-Keeps cm _ _ _ (
          set_rate-Keeps equitel _ _ _ (
            set_rate-Keeps telkom _ _ _
              (set_rate-Keeps airtel _ _ _ (set_rate-Keeps safaricom _ _ _ h))))))

  reset_each-Keeps : (ds : List (Str × ℤ)) → Keeps (reset_each lib ds)
  unfolding Keeps HasUnknown reset_each
  reset_each-Keeps [] l w h = h
  reset_each-Keeps ((n, rps) ∷ rest) l w h =
      let b = lib.new_bucket rps rps w in
      reset_each-Keeps rest (record l { main = put n b.0 l.main }) b.1
        (lookup-put (network_string unknown) n b.0 l.main h)

  change-Keeps : (c : Change) → Keeps (change lib c)
  unfolding change Keeps reset
  change-Keeps (given_retry cfg) l w h = with_retry_config-Keeps cfg l w h
  change-Keeps (given_rate n rps) l w h = set_rate-Keeps n rps l w h
  change-Keeps (given_config get_int) l w h = update_rates-Keeps get_int l w h
  change-Keeps given_reset l w h = reset_each-Keeps l.defaults l w h
  change-Keeps (waited n k) l w h = h
  change-Keeps (waited_retry n k) l w h = h
  change-Keeps (waited_one n) l w h = h
  change-Keeps (waited_one_retry n) l w h = h
  change-Keeps (asked n) l w h = h
  change-Keeps (asked_retry n) l w h = h

  changes-Keeps : (cs : List Change) → Keeps (changes lib cs)
  unfolding changes Keeps
  changes-Keeps [] l w h = h
  changes-Keeps (c ∷ cs) l w h = changes-Keeps cs _ _ (change-Keeps c l w h)

  set_unknown-HasUnknown :
      (rps : ℤ) (l : RateLimits) (w : W) → HasUnknown (set_main_limiter lib unknown rps l w).0
  unfolding set_main_limiter HasUnknown network_string str_eq
  set_unknown-HasUnknown rps l w =
      lookup-put_same (network_string unknown) (lib.new_bucket rps rps w).0 l.main refl

  new_limits-HasUnknown : (cfg : Option RateConfig) (w : W) → HasUnknown (new_limits lib cfg w).0
  unfolding new_limits
  new_limits-HasUnknown cfg w = set_unknown-HasUnknown _ _ _

  on_bucket-answers :
      {A : Type 0} (o : Option ℕ) (act : ℕ → W → A × W) (w : W)
      → o ≢ none
      → (on_bucket lib o act w).0 ≢ none
  unfolding on_bucket
  on_bucket-answers none act w there = absurd (there refl)
  on_bucket-answers (some h) act w there = λ e. cc e

  -- After New and any sequence of attaching retry budgets, setting rates, updates of the dynamic
  -- configuration, resets and waits, a wait of the main queues meets a limiter for every network: it
  -- does not panic.
  pub limits_wait-answers :
      (cfg : Option RateConfig) (cs : List Change) (w : W) (n : Network)
      → (let now = changes lib cs (new_limits lib cfg w).0 (new_limits lib cfg w).1 in
          (limits_wait lib now.0 n now.1).0 ≢ none)
  unfolding limits_wait Keeps
  limits_wait-answers cfg cs w n =
      let start = new_limits lib cfg w in
      let now = changes lib cs start.0 start.1 in
      on_bucket-answers (get_main_limiter now.0 n) lib.wait_bucket now.1 (
        HasUnknown-limiter now.0 n (changes-Keeps cs start.0 start.1 (new_limits-HasUnknown cfg w)))
