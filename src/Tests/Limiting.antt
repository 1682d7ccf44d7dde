-- ===== src/Tests/Limiting.antt =====
-- The rate limiter at concrete inputs.
use sms_mno_gateway.Base.{str_eq}
use sms_mno_gateway.Domain.Network.{network_string}
use sms_mno_gateway.Base.{
  ℕ, suc, ◌+◌, ◌==◌, pos, true, if◌then◌else◌, none, some, List, [], ◌∷◌, ◌≡◌, ◌≢◌, refl, arith,
}
use sms_mno_gateway.Domain.Network.{safaricom, airtel}
use sms_mno_gateway.Common.RateLimit.{
  RateLibrary, RateLimits, RetryConfig, get_main_limiter, new_limits, limits_wait_retry_n,
  limits_wait_retry, limits_allow_retry,
}
use sms_mno_gateway.Common.RateLimit.Changes.{
  Change, given_retry, given_rate, given_reset, waited, waited_one_retry, changes,
}
use sms_mno_gateway.Common.RateLimit.Budgets.{IsRateLibrary, budgets_apart}

-- The number of limiters that were made, and the tokens that each has given.
abbrev Buckets : Type 0
Buckets = ℕ × (ℕ → ℕ)

abbrev given_to : ℕ → ℕ → (ℕ → ℕ) → ℕ → ℕ
given_to h n taken k = if h == k then taken k + n else taken k

abbrev buckets : RateLibrary Buckets
buckets = record {
  new_bucket = λ r b w. (w.0, (suc w.0, w.1));
  wait_bucket = λ h w. (none, (w.0, given_to h 1 w.1));
  wait_bucket_n = λ h n w. (none, (w.0, given_to h n w.1));
  allow_bucket = λ h w. (true, (w.0, given_to h 1 w.1));
  set_limit = λ h r w. w;
  set_burst = λ h r w. w;
}

given_to-other : (h k n : ℕ) (taken : ℕ → ℕ) → h ≢ k → given_to h n taken k ≡ taken k
given_to-other h k n taken other = ground arith

abbrev made : Buckets → ℕ
made w = w.0

abbrev taken : ℕ → Buckets → ℕ
taken h w = w.1 h

buckets-IsRateLibrary : IsRateLibrary buckets made taken
buckets-IsRateLibrary = record {
  fresh = λ r b w. refl;
  counted = λ r b w. refl;
  limit_kept = λ h r w. refl;
  burst_kept = λ h r w. refl;
  wait_kept = λ h n w. refl;
  wait_one_kept = λ h w. refl;
  allow_kept = λ h w. refl;
  only_own_one = λ h k w other. given_to-other h k 1 w.1 other;
  only_own_allow = λ h k w other. given_to-other h k 1 w.1 other;
  only_own = λ h k n w other. given_to-other h k n w.1 other;
}

abbrev retry_budgets : RetryConfig
retry_budgets = record {
  safaricom_sdp = pos 200;
  safaricom_smpp = pos 100;
  airtel_retry = pos 10;
  equitel_retry = pos 5;
  telkom_retry = pos 5;
  cm_retry = pos 5;
  burst_factor = pos 0;
}

abbrev empty_buckets : Buckets
empty_buckets = (0, λ h. 0)

abbrev history : List Change
history =
    given_retry (some retry_budgets)
    ∷ given_rate airtel (pos 70)
    ∷ waited safaricom 3
    ∷ waited_one_retry safaricom
    ∷ given_reset
    ∷ []

abbrev now : RateLimits × Buckets
now =
    changes buckets history (new_limits buckets none empty_buckets).0
      (new_limits buckets none empty_buckets).1

-- The limiter of Airtel after the reset: seven were made by New and seven for the retry queues.
airtel_reset : get_main_limiter now.0 airtel ≡ some 15
unfolding get_main_limiter changes new_limits str_eq network_string
airtel_reset = refl

budgets_apart_example :
    (taken 15 (limits_wait_retry_n buckets now.0 airtel 6 now.1).1 ≡ taken 15 now.1)
    × (taken 15 (limits_wait_retry buckets now.0 airtel now.1).1 ≡ taken 15 now.1)
    × (taken 15 (limits_allow_retry buckets now.0 airtel now.1).1 ≡ taken 15 now.1)
budgets_apart_example =
    budgets_apart buckets made taken buckets-IsRateLibrary none history empty_buckets airtel airtel
      6 15 airtel_reset
