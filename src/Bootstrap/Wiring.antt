-- ===== src/Bootstrap/Wiring.antt =====
-- What New of internal/bootstrap/app.go makes of the configuration for the parts.
pub mod Trips
use sms_mno_gateway.Base.{ℕ, ℤ, pos, int_mul, itoa, Option, none, some, Str, codes, List, [], ◌∷◌}
use sms_mno_gateway.Domain.Network.{
  Network, safaricom, airtel, telkom, equitel, cm, intnl, network_string,
}
use sms_mno_gateway.Ports.Queues.{
  QueueConfig, GetInt, field_max_retries_transactional, field_max_retries_promotional,
  field_credit_multiplier, field_refill_period_ms, field_max_starvation_age_sec,
}
use sms_mno_gateway.Config.Types.{Config}
use sms_mno_gateway.Mno.{CircuitBreaker}
use sms_mno_gateway.Common.RateLimit.{RateConfig}
use sms_mno_gateway.Common.RateLimit
use sms_mno_gateway.Common.Breakers.{BreakerConfig, BreakerRegistry, register}
use sms_mno_gateway.Rabbitmq.Results.{Routes}
use sms_mno_gateway.Rabbitmq.Declarations.{Delays}
use sms_mno_gateway.Service.ResultHandler.{RetryLimits}
use sms_mno_gateway.Service.Scheduler.{PrioritySchedulerConfig}

unfoldable pub main_rates : Config → RateConfig
main_rates cfg = record {
  safaricom_rate = cfg.rate_limit.safaricom;
  airtel_rate = cfg.rate_limit.airtel;
  telkom_rate = cfg.rate_limit.telkom;
  equitel_rate = cfg.rate_limit.equitel;
  cm_rate = cfg.rate_limit.cm;
  default_rate = cfg.rate_limit.default;
}

unfoldable pub retry_rates : Config → RateLimit.RetryConfig
retry_rates cfg = record {
  safaricom_sdp = cfg.retry.rate_limit_safaricom_sdp;
  safaricom_smpp = cfg.retry.rate_limit_safaricom_smpp;
  airtel_retry = cfg.retry.rate_limit_airtel;
  equitel_retry = cfg.retry.rate_limit_equitel;
  telkom_retry = cfg.retry.rate_limit_telkom;
  cm_retry = cfg.retry.rate_limit_cm;
  burst_factor = cfg.retry.burst_factor;
}

-- The fields that are not named are zero.
unfoldable pub app_breaker_config : Network → BreakerConfig
app_breaker_config network = record {
  name = network_string network;
  max_requests = 3;
  interval = 0;
  timeout = 30000000000;
  consecutive_failures = 5;
  failure_ratio = 0;
  min_requests = 0;
}

module _ {W : Type 0} (make : BreakerConfig → CircuitBreaker W) where
  unfoldable pub register_all : List Network → BreakerRegistry W → BreakerRegistry W
  unfolding register app_breaker_config
  register_all [] r = r
  register_all (n ∷ ns) r = register_all ns (register make n (some (app_breaker_config n)) r)

  unfoldable pub app_breakers : BreakerRegistry W
  unfolding register_all
  app_breakers = register_all (safaricom ∷ airtel ∷ telkom ∷ equitel ∷ cm ∷ intnl ∷ []) []

-- What is seeded into the three namespaces of the dynamic configuration.
unfoldable pub retry_seed : Config → List (Str × Str)
retry_seed cfg =
    (field_max_retries_transactional, itoa cfg.retry.max_retries_transactional)
    ∷ (field_max_retries_promotional, itoa cfg.retry.max_retries_promotional)
    ∷ []

unfoldable pub rate_limits_seed : Config → List (Str × Str)
rate_limits_seed cfg =
    (codes "safaricom", itoa cfg.rate_limit.safaricom)
    ∷ (codes "airtel", itoa cfg.rate_limit.airtel)
    ∷ (codes "telkom", itoa cfg.rate_limit.telkom)
    ∷ (codes "equitel", itoa cfg.rate_limit.equitel)
    ∷ (codes "cm", itoa cfg.rate_limit.cm)
    ∷ (codes "default", itoa cfg.rate_limit.default)
    ∷ []

unfoldable pub scheduler_seed : Config → List (Str × Str)
scheduler_seed cfg =
    (field_credit_multiplier, itoa cfg.priority.credit_multiplier)
    ∷ (field_refill_period_ms, itoa cfg.priority.refill_period_ms)
    ∷ (field_max_starvation_age_sec, itoa cfg.priority.max_starvation_age_sec)
    ∷ []

unfoldable pub publisher_queues : Config → QueueConfig
publisher_queues cfg = record {
  save_to_db_queue = cfg.queues.save_to_db_queue;
  retry_queue = cfg.queues.retry_queue;
  dead_letter_queue = cfg.queues.dead_letter_queue;
  transactional_delay_queue = cfg.queues.transactional_delay_queue;
  promotional_delay_queue = cfg.queues.promotional_delay_queue;
  transactional_retry_queue = cfg.queues.transactional_retry_queue;
  promotional_retry_queue = cfg.queues.promotional_retry_queue;
}

unfoldable pub publisher_routes : Config → Routes
unfolding publisher_queues
publisher_routes cfg = record {
  queues = publisher_queues cfg;
  gateway_queue_name = cfg.queues.gateway_queue_name;
}

unfoldable pub publisher_delays : Config → Delays
publisher_delays cfg = record {
  transactional_delay_ms = cfg.retry.transactional_delay_ms;
  promotional_delay_ms = cfg.retry.promotional_delay_ms;
}

unfoldable pub app_retry_limits : Config → GetInt → RetryLimits
app_retry_limits cfg get_int = record {
  max_retries_transactional = cfg.retry.max_retries_transactional;
  max_retries_promotional = cfg.retry.max_retries_promotional;
  dyn_config = some get_int;
}

unfoldable pub app_scheduler_config : Config → PrioritySchedulerConfig
app_scheduler_config cfg = record {
  default_weight = cfg.priority.default_weight;
  credit_multiplier = cfg.priority.credit_multiplier;
  refill_period = int_mul cfg.priority.refill_period_ms (pos 1000000);
  max_starvation_age = int_mul cfg.priority.max_starvation_age_sec (pos 1000000000);
}
