-- ===== src/Common/RateLimit.antt =====
-- internal/common/ratelimit/limiter.go: a budget for the main queues and one for the retry queues of
-- each network.
pub mod Changes
pub mod Budgets
pub mod Total
use sms_mno_gateway.Base.{
  ℕ, ℤ, pos, negsuc, leb_ℤ, int_mul, Bool, true, false, if◌then◌else◌, Option, none, some, Str,
  codes, List, [], ◌∷◌, lookup, put, ◌>>=◌, give, or_else,
}
use sms_mno_gateway.Domain.Errors.{Error}
use sms_mno_gateway.Domain.Network.{
  Network, safaricom, airtel, telkom, equitel, cm, intnl, unknown, network_string,
}
use sms_mno_gateway.Ports.Queues.{GetInt}

-- golang.org/x/time/rate. A number stands for a pointer to a limiter.
pub record RateLibrary (W : Type 0) : Type 0 where
  pub new_bucket : ℤ → ℤ → W → ℕ × W
  pub wait_bucket : ℕ → W → Option Error × W
  pub wait_bucket_n : ℕ → ℕ → W → Option Error × W
  pub allow_bucket : ℕ → W → Bool × W
  pub set_limit : ℕ → ℤ → W → W
  pub set_burst : ℕ → ℤ → W → W

-- The maps of Limiter. Their keys are texts, as a Network of the source is.
pub record RateLimits : Type 0 where
  pub main : List (Str × ℕ)
  pub retry : List (Str × ℕ)
  pub defaults : List (Str × ℤ)

-- Config of the package.
pub record RateConfig : Type 0 where
  pub safaricom_rate : ℤ
  pub airtel_rate : ℤ
  pub telkom_rate : ℤ
  pub equitel_rate : ℤ
  pub cm_rate : ℤ
  pub default_rate : ℤ

pub record RetryConfig : Type 0 where
  pub safaricom_sdp : ℤ
  pub safaricom_smpp : ℤ
  pub airtel_retry : ℤ
  pub equitel_retry : ℤ
  pub telkom_retry : ℤ
  pub cm_retry : ℤ
  pub burst_factor : ℤ

unfoldable pub default_config : RateConfig
default_config = record {
  safaricom_rate = pos 200;
  airtel_rate = pos 50;
  telkom_rate = pos 100;
  equitel_rate = pos 20;
  cm_rate = pos 20;
  default_rate = pos 20;
}

abbrev pub no_limits : RateLimits
no_limits = record { main = []; retry = []; defaults = [] }

-- `m[network]` of the fields main and retry, with the fallback to unknown. None is the nil pointer,
-- on which the callers panic.
unfoldable pub limiter_of : List (Str × ℕ) → Network → Option ℕ
unfolding lookup
limiter_of m n = elim (lookup (network_string n) m) [
  | some h ↦ some h
  | none ↦ lookup (network_string unknown) m
]

unfoldable pub get_main_limiter : RateLimits → Network → Option ℕ
unfolding limiter_of
get_main_limiter l = limiter_of l.main

unfoldable pub get_rate : RateLimits → Network → ℤ
unfolding lookup
get_rate l n = elim (lookup (network_string n) l.defaults) [
  | some rps ↦ rps
  | none ↦ or_else (lookup (network_string unknown) l.defaults) (pos 0)
]

module _ {W : Type 0} (lib : RateLibrary W) where
  unfoldable pub set_main_limiter : Network → ℤ → RateLimits → W → RateLimits × W
  unfolding put
  set_main_limiter n rps l w =
      let made = lib.new_bucket rps rps w in
      (
        record l {
          main = put (network_string n) made.0 l.main;
          defaults = put (network_string n) rps l.defaults;
        },
        made.1,
      )

  -- New, with nil for the default configuration.
  unfoldable pub new_limits : Option RateConfig → W → RateLimits × W
  unfolding set_main_limiter default_config
  new_limits given =
      let cfg = or_else given default_config in
      do
        l1 ← set_main_limiter safaricom cfg.safaricom_rate no_limits
        l2 ← set_main_limiter airtel cfg.airtel_rate l1
        l3 ← set_main_limiter telkom cfg.telkom_rate l2
        l4 ← set_main_limiter equitel cfg.equitel_rate l3
        l5 ← set_main_limiter cm cfg.cm_rate l4
        l6 ← set_main_limiter intnl cfg.cm_rate l5
        set_main_limiter unknown cfg.default_rate l6

  unfoldable pub set_retry : ℤ → Network → ℤ → RateLimits → W → RateLimits × W
  unfolding put
  set_retry burst n given l w =
      let rps = if leb_ℤ given (pos 0) then pos 1 else given in
      let made = lib.new_bucket rps (int_mul rps burst) w in
      (record l { retry = put (network_string n) made.0 l.retry }, made.1)

  set_retries : RetryConfig → RateLimits → W → RateLimits × W
  unfolding set_retry
  set_retries cfg l =
      let burst = if leb_ℤ cfg.burst_factor (pos 0) then pos 1 else cfg.burst_factor in
      let larger =
        if leb_ℤ cfg.safaricom_smpp cfg.safaricom_sdp
        then cfg.safaricom_sdp
        else cfg.safaricom_smpp in
      do
        l1 ← set_retry burst safaricom larger l
        l2 ← set_retry burst airtel cfg.airtel_retry l1
        l3 ← set_retry burst telkom cfg.telkom_retry l2
        l4 ← set_retry burst equitel cfg.equitel_retry l3
        l5 ← set_retry burst cm cfg.cm_retry l4
        l6 ← set_retry burst intnl cfg.cm_retry l5
        set_retry burst unknown (pos 1) l6

  unfoldable pub with_retry_config : Option RetryConfig → RateLimits → W → RateLimits × W
  unfolding set_retries
  with_retry_config none l w = (l, w)
  with_retry_config (some cfg) l w = set_retries cfg l w

  set_found : Option ℕ → Network → ℤ → RateLimits → W → RateLimits × W
  unfolding put
  set_found none n rps l w = (l, w)
  set_found (some h) n rps l w = (
    record l { defaults = put (network_string n) rps l.defaults },
    lib.set_burst h rps (lib.set_limit h rps w),
  )

  unfoldable pub set_rate : Network → ℤ → RateLimits → W → RateLimits × W
  unfolding set_found lookup
  set_rate n rps l = set_found (lookup (network_string n) l.main) n rps l

  -- The loop of Reset, in the order of the list; Go takes any order.
  unfoldable pub reset_each : List (Str × ℤ) → RateLimits → W → RateLimits × W
  unfolding put
  reset_each [] l w = (l, w)
  reset_each ((n, rps) ∷ rest) l w =
      let made = lib.new_bucket rps rps w in
      reset_each rest (record l { main = put n made.0 l.main }) made.1

  unfoldable pub reset : RateLimits → W → RateLimits × W
  unfolding reset_each
  reset l = reset_each l.defaults l

  abbrev ns_rate_limits : Str
  ns_rate_limits = codes "rate_limits"

  -- One round of WatchDynamicConfig.
  unfoldable pub update_rates : GetInt → RateLimits → W → RateLimits × W
  unfolding set_rate get_rate
  update_rates get_int l =
      let read : RateLimits → Network → Str → ℤ =
        λ k n field. get_int ns_rate_limits field (get_rate k n) in
      do
        l1 ← set_rate safaricom (read l safaricom (codes "safaricom")) l
        l2 ← set_rate airtel (read l1 airtel (codes "airtel")) l1
        l3 ← set_rate telkom (read l2 telkom (codes "telkom")) l2
        l4 ← set_rate equitel (read l3 equitel (codes "equitel")) l3
        let cm_now = read l4 cm (codes "cm")
        l5 ← set_rate cm cm_now l4
        l6 ← set_rate intnl cm_now l5
        set_rate unknown (read l6 unknown (codes "default")) l6

  on_bucket : {A : Type 0} → Option ℕ → (ℕ → W → A × W) → W → Option A × W
  on_bucket none act w = (none, w)
  on_bucket (some h) act w = let r = act h w in (some r.0, r.1)

  -- The calls that wait for tokens or ask for one. None is the panic on a nil limiter.
  unfoldable pub limits_wait : RateLimits → Network → W → Option (Option Error) × W
  unfolding on_bucket get_main_limiter
  limits_wait l n = on_bucket (get_main_limiter l n) lib.wait_bucket

  unfoldable pub limits_wait_retry : RateLimits → Network → W → Option (Option Error) × W
  unfolding on_bucket limiter_of
  limits_wait_retry l n = on_bucket (limiter_of l.retry n) lib.wait_bucket

  unfoldable pub limits_wait_n : RateLimits → Network → ℕ → W → Option (Option Error) × W
  unfolding on_bucket get_main_limiter
  limits_wait_n l n k = on_bucket (get_main_limiter l n) (λ h. lib.wait_bucket_n h k)

  unfoldable pub limits_wait_retry_n : RateLimits → Network → ℕ → W → Option (Option Error) × W
  unfolding on_bucket limiter_of
  limits_wait_retry_n l n k = on_bucket (limiter_of l.retry n) (λ h. lib.wait_bucket_n h k)

  unfoldable pub limits_allow : RateLimits → Network → W → Option Bool × W
  unfolding on_bucket get_main_limiter
  limits_allow l n = on_bucket (get_main_limiter l n) lib.allow_bucket

  unfoldable pub limits_allow_retry : RateLimits → Network → W → Option Bool × W
  unfolding on_bucket limiter_of
  limits_allow_retry l n = on_bucket (limiter_of l.retry n) lib.allow_bucket
