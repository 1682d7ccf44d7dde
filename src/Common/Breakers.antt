-- ===== src/Common/Breakers.antt =====
-- The registry of internal/common/circuitbreaker/breaker.go. The breakers are those of
-- sony/gobreaker.
use sms_mno_gateway.Base.{
  ℕ, Bool, true, false, leb, if◌then◌else◌, Option, none, some, or_else, Str, codes, List, [], ◌∷◌,
  ◌++◌, ◌⊎◌, inl, inr,
}
use sms_mno_gateway.Domain.Network.{Network, network_eq, network_string}
use sms_mno_gateway.Domain.Errors.{Error, foreign}
use sms_mno_gateway.Mno.{CircuitBreaker}

-- `failure_ratio` is the float64's bit pattern; times are in nanoseconds.
pub record BreakerConfig : Type 0 where
  pub name : Str
  pub max_requests : ℕ
  pub interval : ℕ
  pub timeout : ℕ
  pub consecutive_failures : ℕ
  pub failure_ratio : ℕ
  pub min_requests : ℕ

unfoldable pub default_breaker_config : Str → BreakerConfig
default_breaker_config name = record {
  name = name;
  max_requests = 3;
  interval = 60000000000;
  timeout = 10000000000;
  consecutive_failures = 20;
  failure_ratio = 0x3FE0000000000000;
  min_requests = 50;
}

-- gobreaker.Counts, of which the trip condition reads three.
pub record BreakerCounts : Type 0 where
  pub requests : ℕ
  pub total_failures : ℕ
  pub consecutive_failures : ℕ

-- ReadyToTrip, which the library asks after a failure. `ratio_reached` is the comparison
-- `float64(failures) / float64(requests) >= ratio` on the bit pattern of the ratio.
unfoldable pub ready_to_trip : (ℕ → ℕ → ℕ → Bool) → BreakerConfig → BreakerCounts → Bool
ready_to_trip ratio_reached cfg counts =
    if leb cfg.consecutive_failures counts.consecutive_failures
    then true
    else if leb cfg.min_requests counts.requests
    then ratio_reached counts.total_failures counts.requests cfg.failure_ratio
    else false

abbrev pub BreakerRegistry : Type 0 → Type 0
BreakerRegistry W = List (Network × CircuitBreaker W)

module _ {W : Type 0} where
  -- New, with the library's constructor as its argument.
  unfoldable pub new_breaker :
      (BreakerConfig → CircuitBreaker W) → Network → Option BreakerConfig → CircuitBreaker W
  unfolding default_breaker_config
  new_breaker make network cfg =
      make (or_else cfg (default_breaker_config (network_string network)))

  -- The entry of the network, added at the end if it is new.
  unfoldable pub register :
      (BreakerConfig → CircuitBreaker W)
      → Network
      → Option BreakerConfig
      → BreakerRegistry W
      → BreakerRegistry W
  unfolding new_breaker
  register make network cfg [] = (network, new_breaker make network cfg) ∷ []
  register make network cfg ((n, cb) ∷ rest) =
      let later = register make network cfg rest in
      if network_eq network n then (n, new_breaker make network cfg) ∷ rest else (n, cb) ∷ later

  unfoldable pub breaker_of : BreakerRegistry W → Network → Option (CircuitBreaker W)
  breaker_of [] network = none
  breaker_of ((n, cb) ∷ rest) network =
      let later = breaker_of rest network in if network_eq network n then some cb else later

  -- Get, with the error of a network that is not registered.
  unfoldable pub get_breaker : BreakerRegistry W → Network → CircuitBreaker W ⊎ Error
  unfolding breaker_of
  get_breaker r network = elim (breaker_of r network) [
    | some cb ↦ inl cb
    | none ↦
        inr (foreign (codes "circuit breaker not found for network: " ++ network_string network))
  ]
