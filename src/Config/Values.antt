-- ===== src/Config/Values.antt =====
-- Load of internal/config/config.go.
use sms_mno_gateway.Base.{ℤ, pos, Option, true, false, Str, codes, [], ◌∷◌}
use sms_mno_gateway.Config.{
  Env, get_env, get_env_as_int, get_env_as_duration, get_env_as_string_slice, get_env_as_bool,
  get_env_as_queue_weights, build_rabbit_mq_url,
}
use sms_mno_gateway.Config.Types.{
  AppConfig, HttpConfig, RedisConfig, RabbitMqConfig, QueuesConfig, RateLimitConfig, PriorityConfig,
  RetryConfig, AfricasTalkingConfig, Config,
}
use sms_mno_gateway.Config.Networks.{load_mno}

module _ (parse_duration : Str → Option ℤ) (env : Env) where
  unfoldable pub load_app : AppConfig
  load_app = record {
    env = get_env env (codes "APP_ENV") (codes "development");
    log_level = get_env env (codes "LOG_LEVEL") (codes "info");
    worker_count = get_env_as_int env (codes "WORKER_COUNT") (pos 10);
  }

  unfoldable pub load_http : HttpConfig
  load_http = record {
    port = get_env_as_int env (codes "HTTP_PORT") (pos 8080);
    read_timeout =
        get_env_as_duration parse_duration env (codes "HTTP_READ_TIMEOUT") (pos 30000000000);
    write_timeout =
        get_env_as_duration parse_duration env (codes "HTTP_WRITE_TIMEOUT") (pos 30000000000);
    idle_timeout =
        get_env_as_duration parse_duration env (codes "HTTP_IDLE_TIMEOUT") (pos 60000000000);
  }

  unfoldable pub load_redis : RedisConfig
  load_redis = record {
    host = get_env env (codes "REDIS_HOST") (codes "localhost");
    port = get_env_as_int env (codes "REDIS_PORT") (pos 6379);
    password = get_env env (codes "REDIS_PASSWORD") (codes "");
    db = get_env_as_int env (codes "REDIS_DB") (pos 0);
  }

  unfoldable pub load_rabbit_mq : RabbitMqConfig
  load_rabbit_mq = record {
    url = build_rabbit_mq_url env;
    prefetch_count = get_env_as_int env (codes "RABBITMQ_PREFETCH") (pos 10);
    reconnect_wait =
        get_env_as_duration parse_duration env (codes "RABBITMQ_RECONNECT_WAIT") (pos 5000000000);
  }

  unfoldable pub load_queues : QueuesConfig
  load_queues = record {
    input_queues =
        get_env_as_string_slice env (codes "INPUT_QUEUES")
          (codes "TITANIC-KE_SMS_QUEUE" ∷ codes "CONSUME_TO_MNO" ∷ []);
    save_to_db_queue = get_env env (codes "SAVE_TO_DB_QUEUE") (codes "SAVE_TO_DB");
    retry_queue = get_env env (codes "SMS_RETRY_QUEUE") (codes "SMS_RETRY_QUEUE");
    dead_letter_queue = get_env env (codes "SMS_DEAD_LETTER_QUEUE") (codes "SMS_DEAD_LETTER_QUEUE");
    gateway_queue_name = get_env env (codes "GATEWAY_QUEUE_NAME") (codes "SMS_MNO_GATEWAY_QUEUE");
    transactional_retry_queue =
        get_env env (codes "SMS_TRANSACTIONAL_RETRY_QUEUE") (codes "SMS_TRANSACTIONAL_RETRY_QUEUE");
    promotional_retry_queue =
        get_env env (codes "SMS_PROMOTIONAL_RETRY_QUEUE") (codes "SMS_PROMOTIONAL_RETRY_QUEUE");
    transactional_delay_queue =
        get_env env (codes "SMS_TRANSACTIONAL_DELAY_QUEUE") (codes "SMS_TRANSACTIONAL_DELAY_QUEUE");
    promotional_delay_queue =
        get_env env (codes "SMS_PROMOTIONAL_DELAY_QUEUE") (codes "SMS_PROMOTIONAL_DELAY_QUEUE");
    sdp_batch_sizes = get_env_as_queue_weights env (codes "QUEUE_SDP_BATCH_SIZES") [];
    dlq_migrator_enabled = get_env_as_bool env (codes "DLQ_MIGRATOR_ENABLED") true;
    dlq_migrator_dest_queue =
        get_env env (codes "DLQ_MIGRATOR_DEST_QUEUE") (codes "sms_transactional");
    dlq_perm_queue = get_env env (codes "DLQ_PERM_QUEUE") (codes "SMS_DEAD_LETTER_QUEUE_PERM");
    save_to_db_dlq = get_env env (codes "SAVE_TO_DB_DLQ") (codes "SAVE_TO_DB_DLQ");
    save_to_db_dlq_migrator_enabled =
        get_env_as_bool env (codes "SAVE_TO_DB_DLQ_MIGRATOR_ENABLED") true;
  }

  unfoldable pub load_rate_limit : RateLimitConfig
  load_rate_limit = record {
    safaricom = get_env_as_int env (codes "RATE_LIMIT_SAFARICOM") (pos 200);
    airtel = get_env_as_int env (codes "RATE_LIMIT_AIRTEL") (pos 50);
    telkom = get_env_as_int env (codes "RATE_LIMIT_TELKOM") (pos 100);
    equitel = get_env_as_int env (codes "RATE_LIMIT_EQUITEL") (pos 20);
    cm = get_env_as_int env (codes "RATE_LIMIT_CM") (pos 20);
    default = get_env_as_int env (codes "RATE_LIMIT_DEFAULT") (pos 20);
  }

  unfoldable pub load_priority : PriorityConfig
  load_priority = record {
    enabled = get_env_as_bool env (codes "PRIORITY_ROUTING_ENABLED") false;
    redis_weights_key =
        get_env env (codes "PRIORITY_REDIS_WEIGHTS_KEY") (codes "sms:priority:queue_weights");
    default_queue_weights = get_env_as_queue_weights env (codes "PRIORITY_DEFAULT_WEIGHTS") (
        (codes "GOLD_PARTNERS_QUEUE", pos 10)
        ∷ (codes "BETIKA_GOLD", pos 10)
        ∷ (codes "PEPETA_GOLD", pos 10)
        ∷ (codes "TITANIC-KE_SMS_QUEUE", pos 1)
        ∷ (codes "CONSUME_TO_MNO", pos 1)
        ∷ (codes "SMS_MNO_GATEWAY_QUEUE", pos 1)
        ∷ []);
    default_weight = get_env_as_int env (codes "PRIORITY_DEFAULT_WEIGHT") (pos 1);
    transactional_workers = get_env_as_int env (codes "PRIORITY_TRANSACTIONAL_WORKERS") (pos 5);
    credit_multiplier = get_env_as_int env (codes "PRIORITY_CREDIT_MULTIPLIER") (pos 10);
    refill_period_ms = get_env_as_int env (codes "PRIORITY_REFILL_PERIOD_MS") (pos 100);
    max_starvation_age_sec = get_env_as_int env (codes "PRIORITY_MAX_STARVATION_AGE_SEC") (pos 10);
  }

  unfoldable pub load_retry : RetryConfig
  load_retry = record {
    transactional_delay_ms = get_env_as_int env (codes "RETRY_TRANSACTIONAL_DELAY_MS") (pos 5000);
    promotional_delay_ms = get_env_as_int env (codes "RETRY_PROMOTIONAL_DELAY_MS") (pos 30000);
    transactional_worker_count =
        get_env_as_int env (codes "RETRY_TRANSACTIONAL_WORKER_COUNT") (pos 50);
    transactional_prefetch = get_env_as_int env (codes "RETRY_TRANSACTIONAL_PREFETCH") (pos 100);
    promotional_worker_count =
        get_env_as_int env (codes "RETRY_PROMOTIONAL_WORKER_COUNT") (pos 200);
    promotional_prefetch = get_env_as_int env (codes "RETRY_PROMOTIONAL_PREFETCH") (pos 400);
    rate_limit_safaricom_sdp =
        get_env_as_int env (codes "RATE_LIMIT_RETRY_SAFARICOM_SDP") (pos 200);
    rate_limit_safaricom_smpp =
        get_env_as_int env (codes "RATE_LIMIT_RETRY_SAFARICOM_SMPP") (pos 40);
    rate_limit_airtel = get_env_as_int env (codes "RATE_LIMIT_RETRY_AIRTEL") (pos 5);
    rate_limit_equitel = get_env_as_int env (codes "RATE_LIMIT_RETRY_EQUITEL") (pos 10);
    rate_limit_telkom = get_env_as_int env (codes "RATE_LIMIT_RETRY_TELKOM") (pos 10);
    rate_limit_cm = get_env_as_int env (codes "RATE_LIMIT_RETRY_CM") (pos 5);
    burst_factor = get_env_as_int env (codes "RATE_LIMIT_RETRY_BURST_FACTOR") (pos 1);
    max_retries_transactional =
        get_env_as_int env (codes "RETRY_MAX_RETRIES_TRANSACTIONAL") (pos 5);
    max_retries_promotional = get_env_as_int env (codes "RETRY_MAX_RETRIES_PROMOTIONAL") (pos 10);
  }

  unfoldable pub load_africas_talking : AfricasTalkingConfig
  load_africas_talking = record {
    queue_name =
        get_env env (codes "AFRICAS_TALKING_SMS_QUEUE") (codes "AFRICAS_TALKING_SMS_QUEUE");
    worker_count = get_env_as_int env (codes "AFRICAS_TALKING_WORKER_COUNT") (pos 5);
    prefetch = get_env_as_int env (codes "AFRICAS_TALKING_PREFETCH") (pos 20);
    sandbox_url =
        get_env env (codes "AFRICAS_TALKING_SANDBOX_API_URL")
          (codes "https://api.sandbox.africastalking.com/version1/messaging");
    production_url =
        get_env env (codes "AFRICAS_TALKING_PRODUCTION_API_URL")
          (codes "https://api.africastalking.com/version1/messaging");
    mode = get_env env (codes "AFRICAS_TALKING_MODE") (codes "sandbox");
    api_key = get_env env (codes "AFRICAS_TALKING_API_KEY") (codes "");
    api_key_prod = get_env env (codes "AFRICAS_TALKING_API_KEY_PROD") (codes "");
    username = get_env env (codes "AFRICAS_TALKING_USERNAME") (codes "");
    send_result_url = get_env env (codes "AFRICAS_TALKING_SEND_RESULT_URL") (codes "");
    internal_token = get_env env (codes "AFRICAS_TALKING_INTERNAL_TOKEN") (codes "");
    balance_cooldown =
        get_env_as_duration parse_duration env (codes "AFRICAS_TALKING_BALANCE_COOLDOWN")
          (pos 300000000000);
    max_report_retries = get_env_as_int env (codes "AFRICAS_TALKING_MAX_REPORT_RETRIES") (pos 5);
    report_retry_base_delay =
        get_env_as_duration parse_duration env (codes "AFRICAS_TALKING_REPORT_RETRY_BASE_DELAY")
          (pos 2000000000);
    report_retry_max_delay =
        get_env_as_duration parse_duration env (codes "AFRICAS_TALKING_REPORT_RETRY_MAX_DELAY")
          (pos 60000000000);
  }

  unfoldable pub load : Config
  unfolding load_app load_http load_redis load_rabbit_mq load_queues load_mno load_rate_limit
      load_priority load_retry load_africas_talking
  load = record {
    app = load_app;
    http = load_http;
    redis = load_redis;
    rabbit_mq = load_rabbit_mq;
    queues = load_queues;
    mno = load_mno parse_duration env;
    rate_limit = load_rate_limit;
    priority = load_priority;
    retry = load_retry;
    africas_talking = load_africas_talking;
  }
