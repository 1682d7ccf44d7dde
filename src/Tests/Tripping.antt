-- ===== src/Tests/Tripping.antt =====
-- A circuit breaker after its first failure.
use sms_mno_gateway.Base.{ℕ, inl, ◌*◌, ◌==◌, leb, Bool, true, if◌then◌else◌, some, ◌≡◌, refl, arith}
use sms_mno_gateway.Domain.Network.{airtel, network_eq}
use sms_mno_gateway.Mno.{CircuitBreaker}
use sms_mno_gateway.Common.Breakers.{BreakerConfig, BreakerCounts, breaker_of, ready_to_trip}
use sms_mno_gateway.Bootstrap.Wiring.{app_breaker_config, app_breakers}
use sms_mno_gateway.Bootstrap.Wiring.Trips.{registered_breaker_trips}

-- The comparison for the ratios 0 and one half.
abbrev halves : ℕ → ℕ → ℕ → Bool
halves failures requests ratio = if ratio == 0 then true else leb requests (2 * failures)

abbrev closed_breaker : BreakerConfig → CircuitBreaker ℕ
closed_breaker cfg = record {
  is_open = λ w. (leb cfg.consecutive_failures w, w);
  before_request = λ w. (inl 0, w);
  after_request = λ g ok w. w;
}

abbrev one_failure : BreakerCounts
one_failure = record { requests = 1; total_failures = 1; consecutive_failures = 1 }

registered_breaker_trips_example :
    (breaker_of (app_breakers closed_breaker) airtel
      ≡ some (closed_breaker (app_breaker_config airtel)))
    × (ready_to_trip halves (app_breaker_config airtel) one_failure ≡ true)
unfolding network_eq
registered_breaker_trips_example =
    registered_breaker_trips closed_breaker halves airtel one_failure (λ f r h. refl) refl
      (omega arith)
