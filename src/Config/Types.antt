-- ===== src/Config/Types.antt =====
-- The structs of internal/config/config.go. Durations are in nanoseconds, maps are lists of entries.
use sms_mno_gateway.Base.{ℤ, Bool, Str, List}

pub record AppConfig : Type 0 where
  pub env : Str
  pub log_level : Str
  pub worker_count : ℤ

pub record HttpConfig : Type 0 where
  pub port : ℤ
  pub read_timeout : ℤ
  pub write_timeout : ℤ
  pub idle_timeout : ℤ

pub record RedisConfig : Type 0 where
  pub host : Str
  pub port : ℤ
  pub password : Str
  pub db : ℤ

pub record RabbitMqConfig : Type 0 where
  pub url : Str
  pub prefetch_count : ℤ
  pub reconnect_wait : ℤ

pub record QueuesConfig : Type 0 where
  pub input_queues : List Str
  pub save_to_db_queue : Str
  pub retry_queue : Str
  pub dead_letter_queue : Str
  pub gateway_queue_name : Str
  pub transactional_retry_queue : Str
  pub promotional_retry_queue : Str
  pub transactional_delay_queue : Str
  pub promotional_delay_queue : Str
  pub sdp_batch_sizes : List (Str × ℤ)
  pub dlq_migrator_enabled : Bool
  pub dlq_migrator_dest_queue : Str
  pub dlq_perm_queue : Str
  pub save_to_db_dlq : Str
  pub save_to_db_dlq_migrator_enabled : Bool

pub record SdpConfig : Type 0 where
  pub auth_url : Str
  pub send_url : Str
  pub auth_user : Str
  pub country_prefix : Str
  pub username : Str
  pub password : Str
  pub dlr_url : Str
  pub dlr_url_api_v2 : Str
  pub token_key : Str
  pub token_ttl : ℤ
  pub promo_sdp_batch_size : ℤ
  pub response_header_timeout : ℤ
  pub request_timeout : ℤ

pub record SmppConfig : Type 0 where
  pub url : Str
  pub smsc : Str
  pub username : Str
  pub password : Str
  pub dlr_url : Str
  pub dlr_url_api_v2 : Str

pub record MnoConfig : Type 0 where
  pub safaricom_sdp : SdpConfig
  pub safaricom_smpp : SmppConfig
  pub airtel : SmppConfig
  pub airtel_promo : SmppConfig
  pub telkom : SmppConfig
  pub equitel : SmppConfig
  pub cm : SmppConfig

pub record RateLimitConfig : Type 0 where
  pub safaricom : ℤ
  pub airtel : ℤ
  pub telkom : ℤ
  pub equitel : ℤ
  pub cm : ℤ
  pub default : ℤ

pub record PriorityConfig : Type 0 where
  pub enabled : Bool
  pub redis_weights_key : Str
  pub default_queue_weights : List (Str × ℤ)
  pub default_weight : ℤ
  pub transactional_workers : ℤ
  pub credit_multiplier : ℤ
  pub refill_period_ms : ℤ
  pub max_starvation_age_sec : ℤ

pub record RetryConfig : Type 0 where
  pub transactional_delay_ms : ℤ
  pub promotional_delay_ms : ℤ
  pub transactional_worker_count : ℤ
  pub transactional_prefetch : ℤ
  pub promotional_worker_count : ℤ
  pub promotional_prefetch : ℤ
  pub rate_limit_safaricom_sdp : ℤ
  pub rate_limit_safaricom_smpp : ℤ
  pub rate_limit_airtel : ℤ
  pub rate_limit_equitel : ℤ
  pub rate_limit_telkom : ℤ
  pub rate_limit_cm : ℤ
  pub burst_factor : ℤ
  pub max_retries_transactional : ℤ
  pub max_retries_promotional : ℤ

pub record AfricasTalkingConfig : Type 0 where
  pub queue_name : Str
  pub worker_count : ℤ
  pub prefetch : ℤ
  pub sandbox_url : Str
  pub production_url : Str
  pub mode : Str
  pub api_key : Str
  pub api_key_prod : Str
  pub username : Str
  pub send_result_url : Str
  pub internal_token : Str
  pub balance_cooldown : ℤ
  pub max_report_retries : ℤ
  pub report_retry_base_delay : ℤ
  pub report_retry_max_delay : ℤ

pub record Config : Type 0 where
  pub app : AppConfig
  pub http : HttpConfig
  pub redis : RedisConfig
  pub rabbit_mq : RabbitMqConfig
  pub queues : QueuesConfig
  pub mno : MnoConfig
  pub rate_limit : RateLimitConfig
  pub priority : PriorityConfig
  pub retry : RetryConfig
  pub africas_talking : AfricasTalkingConfig
