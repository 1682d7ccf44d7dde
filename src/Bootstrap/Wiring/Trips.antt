-- ===== src/Bootstrap/Wiring/Trips.antt =====
-- When the circuit breakers that internal/bootstrap/app.go registers open, by the condition of
-- internal/common/circuitbreaker/breaker.go.
use sms_mno_gateway.Base.{
  ℕ, ◌<◌, Bool, true, false, leb, some, ◌≡◌, refl, arith, Bool-cases, inl, inr,
}
use sms_mno_gateway.Domain.Network.{
  Network, safaricom, airtel, telkom, equitel, cm, intnl, unknown, network_eq,
}
use sms_mno_gateway.Mno.{CircuitBreaker}
use sms_mno_gateway.Common.Breakers.{
  BreakerConfig, BreakerCounts, breaker_of, new_breaker, register, ready_to_trip,
}
use sms_mno_gateway.Bootstrap.Wiring.{app_breaker_config, register_all, app_breakers}

-- Of the comparison of floating point numbers, only that a quotient of a number by a positive one
-- reaches the ratio 0.
abbrev pub ReachesZero : (ℕ → ℕ → ℕ → Bool) → Type 0
ReachesZero ratio_reached =
    (failures requests : ℕ) → 0 < requests → ratio_reached failures requests 0 ≡ true

registered :
    {W : Type 0} (make : BreakerConfig → CircuitBreaker W) (n : Network)
    → network_eq n unknown ≡ false
    → breaker_of (app_breakers make) n ≡ some (make (app_breaker_config n))
unfolding app_breakers register_all breaker_of register new_breaker network_eq
registered make safaricom known = refl
registered make airtel known = refl
registered make telkom known = refl
registered make equitel known = refl
registered make cm known = refl
registered make intnl known = refl
registered make unknown known = absurd (cc known)

trips :
    (ratio_reached : ℕ → ℕ → ℕ → Bool) (n : Network) (counts : BreakerCounts)
    → ReachesZero ratio_reached
    → 0 < counts.requests
    → ready_to_trip ratio_reached (app_breaker_config n) counts ≡ true
unfolding ready_to_trip app_breaker_config
trips ratio_reached n counts zero_reached some_requests =
    let reached = zero_reached counts.total_failures counts.requests some_requests in
    elim (Bool-cases (leb 5 counts.consecutive_failures)) [
      | inl many ↦ rw many refl
      | inr few ↦ rw (few, reached) (ground arith)
    ]

-- Every network except unknown gets the breaker of its configuration; as this sets no least number of
-- requests and no ratio, the condition to open holds after every failure, the first one included,
-- and the five consecutive failures that it names are never waited for.
pub registered_breaker_trips :
    {W : Type 0} (make : BreakerConfig → CircuitBreaker W) (ratio_reached : ℕ → ℕ → ℕ → Bool)
    (n : Network) (counts : BreakerCounts)
    → ReachesZero ratio_reached
    → network_eq n unknown ≡ false
    → 0 < counts.requests
    → (breaker_of (app_breakers make) n ≡ some (make (app_breaker_config n)))
      × (ready_to_trip ratio_reached (app_breaker_config n) counts ≡ true)
registered_breaker_trips make ratio_reached n counts zero_reached known some_requests =
    (registered make n known, trips ratio_reached n counts zero_reached some_requests)
