-- ===== src/Tests/Fixtures.antt =====
-- Messages, queues and small worlds for the tests.
use sms_mno_gateway.Base.{
  ℕ, suc, true, false, none, some, codes, List, [], ◌∷◌, ◌++◌, inl, pos, refl,
}
use sms_mno_gateway.Domain.Errors.{sentinel, mno_timeout}
use sms_mno_gateway.Domain.Message.{Message}
use sms_mno_gateway.Domain.Result.{
  SendResult, BatchResult, retryable, success, permanent, new_success_result,
}
use sms_mno_gateway.Ports.Queues.{QueueConfig}
use sms_mno_gateway.Ports.Senders.{MnoSender, MnoSenderFactory, Limiter}
use sms_mno_gateway.Rabbitmq.Publisher.{Amqp, Link}
use sms_mno_gateway.Rabbitmq.Postings.{Posting, body_postings, IsLog}
use sms_mno_gateway.Rabbitmq.Results.{Routes}
use sms_mno_gateway.Service.ResultHandler.{RetryLimits}
use sms_mno_gateway.Service.Processor.{Processor}

abbrev pub hello : Message
hello = record {
  correlator = codes "c-1";
  content = codes "hello";
  msisdn = codes "0711222333";
  network_raw = codes "safaricom";
  sender = codes "SHOP";
  package_id = codes "PROMO";
  status = codes "PENDING";
  description = [];
  created_at = codes "2026-01-01";
  retry_count = pos 0;
  last_error = [];
  processed_at = 0;
  source_queue = codes "GATEWAY";
  outbox_id = pos 7;
  prefix = [];
  country = codes "KE";
  mno = [];
  unit_cost = 0;
  rate_source = [];
}

abbrev pub parcel : Message
parcel = record hello { correlator = codes "c-2"; sender = codes "POST"; retry_count = pos 3 }

abbrev pub result_of : Message → SendResult
result_of m = record {
  message = m;
  outcome = retryable;
  error = some (sentinel mno_timeout);
  mno_response = [];
  latency = 5;
  timestamp = 9;
  external_message_id = [];
  network_code = [];
}

abbrev pub mixed_batch : BatchResult
mixed_batch = record {
  successful = record (result_of hello) { outcome = success; error = none } ∷ [];
  retryables = result_of hello ∷ result_of parcel ∷ [];
  failed = record (result_of parcel) { outcome = permanent } ∷ [];
  total_count = 4;
}

abbrev pub queues : QueueConfig
queues = record {
  save_to_db_queue = codes "SAVE";
  retry_queue = codes "RETRY";
  dead_letter_queue = codes "DLQ";
  transactional_delay_queue = codes "T_DELAY";
  promotional_delay_queue = codes "P_DELAY";
  transactional_retry_queue = codes "T_RETRY";
  promotional_retry_queue = codes "P_RETRY";
}

abbrev pub routes : Routes
routes = record { queues = queues; gateway_queue_name = codes "GATEWAY" }

-- A client library that accepts everything.
abbrev pub broker : Amqp (List Posting)
broker = record {
  new_channel = λ w. (inl 0, w);
  is_closed = λ ch w. false;
  publish_with_context = λ ch queue body w. (none, w ++ body_postings queue body);
}

pub broker-IsLog : IsLog broker (λ w. w)
broker-IsLog = record { opened = λ w. refl; accepted = λ ch queue body w h. refl }

abbrev pub fresh_link : Link (List Posting)
fresh_link = record { channel = none; world = [] }

abbrev pub three_retries : RetryLimits
three_retries = record {
  max_retries_transactional = pos 5;
  max_retries_promotional = pos 3;
  dyn_config = none;
}

-- A world that is the time, and a sender that always succeeds.
abbrev pub accept_all : List Message → ℕ → List SendResult × ℕ
accept_all [] w = ([], w)
accept_all (m ∷ ms) w = let rest = accept_all ms w in (new_success_result m [] 0 w ∷ rest.0, rest.1)

abbrev pub good_sender : MnoSender ℕ
good_sender = record {
  send = λ m w. (new_success_result m [] 0 w, suc w);
  send_batch = some accept_all;
  is_healthy = λ w. (true, w);
}

abbrev pub open_limiter : Limiter ℕ
open_limiter = record {
  wait = λ n w. (none, w);
  wait_retry = λ n w. (none, w);
  wait_n = λ n k w. (none, w);
  wait_retry_n = λ n k w. (none, w);
}

abbrev pub one_sender : MnoSenderFactory ℕ
one_sender = record {
  get_sender = λ m. inl good_sender;
  get_sender_by_network = λ n. inl good_sender;
}

abbrev pub simple_processor : Processor ℕ
simple_processor = record {
  router = one_sender;
  handle_batch_results = λ b w. (none, w);
  rate_limiter = open_limiter;
  clock = λ w. (w, suc w);
  worker_count = 2;
  sdp_batch_size = 1;
  is_retry = false;
}
