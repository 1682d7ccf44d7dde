-- ===== src/Common/RateLimit/Changes.antt =====
-- Sequences of calls of the limiter of internal/common/ratelimit/limiter.go.
use sms_mno_gateway.Base.{ℕ, ℤ, Option, List, [], ◌∷◌}
use sms_mno_gateway.Domain.Network.{Network}
use sms_mno_gateway.Ports.Queues.{GetInt}
use sms_mno_gateway.Common.RateLimit.{
  RateLibrary, RateLimits, RetryConfig, with_retry_config, set_rate, update_rates, reset,
  limits_wait, limits_wait_retry, limits_wait_n, limits_wait_retry_n, limits_allow,
  limits_allow_retry,
}

-- What may happen to a limiter after New.
pub data Change : Type 0 where
  given_retry : Option RetryConfig → Change
  given_rate : Network → ℤ → Change
  given_config : GetInt → Change
  given_reset : Change
  waited waited_retry : Network → ℕ → Change
  waited_one waited_one_retry asked asked_retry : Network → Change

module _ {W : Type 0} (lib : RateLibrary W) where
  unfoldable pub change : Change → RateLimits → W → RateLimits × W
  unfolding with_retry_config set_rate update_rates reset limits_wait_n limits_wait_retry_n
      limits_wait limits_wait_retry limits_allow limits_allow_retry
  change (given_retry cfg) l w = with_retry_config lib cfg l w
  change (given_rate n rps) l w = set_rate lib n rps l w
  change (given_config get_int) l w = update_rates lib get_int l w
  change given_reset l w = reset lib l w
  change (waited n k) l w = (l, (limits_wait_n lib l n k w).1)
  change (waited_retry n k) l w = (l, (limits_wait_retry_n lib l n k w).1)
  change (waited_one n) l w = (l, (limits_wait lib l n w).1)
  change (waited_one_retry n) l w = (l, (limits_wait_retry lib l n w).1)
  change (asked n) l w = (l, (limits_allow lib l n w).1)
  change (asked_retry n) l w = (l, (limits_allow_retry lib l n w).1)

  unfoldable pub changes : List Change → RateLimits → W → RateLimits × W
  unfolding change
  changes [] l w = (l, w)
  changes (c ∷ cs) l w = let r = change c l w in changes cs r.0 r.1
