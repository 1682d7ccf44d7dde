-- ===== src/Tests/International.antt =====
-- The international messages at concrete inputs.
use sms_mno_gateway.Base.{int_mul, str_eq, to_upper, trim_space}
use sms_mno_gateway.Domain.Message.{validate}
use sms_mno_gateway.Domain.Network.{network_is_valid, parse_network}
use sms_mno_gateway.Domain.Result.{is_success}
use sms_mno_gateway.Base.{
  ℕ, suc, ◌≤◌, pos, true, false, Option, none, some, Str, codes, [], ◌∷◌, inl, ◌≡◌, refl, ap,
  or_else, arith,
}
use sms_mno_gateway.Domain.Errors.{Error, sentinel, insufficient_balance}
use sms_mno_gateway.Domain.Message.{Message, clone}
use sms_mno_gateway.Domain.Result.{new_success_result, new_permanent_result}
use sms_mno_gateway.Mno.{failed_since}
use sms_mno_gateway.Mno.AfricasTalking.{
  AfricasTalkingSender, AtRecipient, send_at, is_accepted, code_is, judge_recipients,
}
use sms_mno_gateway.Mno.AfricasTalking.Cooldown.{IsField, send_at-refused}
use sms_mno_gateway.Service.AfricasTalking.{
  AfricasTalkingProcessor, retry_backoff, process_international, outcome_ack,
}
use sms_mno_gateway.Service.AfricasTalking.Once.{IsSendCount, process_international-once}
use sms_mno_gateway.Reporter.{AfricasTalkingReporter, report, judge_report}
use sms_mno_gateway.Reporter.Accepted.{IsAccepted, acked-IsAccepted}
use sms_mno_gateway.Tests.Fixtures.{hello}

abbrev keep : Str → Message → ℕ → Option Error × ℕ
keep queue m w = (none, w)

-- A world that counts the sends.
abbrev counting : AfricasTalkingProcessor ℕ
counting = record {
  send = λ m w. (new_success_result m [] 0 0, suc w);
  report = λ r w. (none, w);
  wait = none;
  publish = some keep;
  save_to_db_queue = codes "SAVE";
  dead_letter_queue = codes "DLQ";
  max_report_retries = 3;
  report_retry_base_delay = 500;
  report_retry_max_delay = 3000;
  pause = λ t w. (none, w);
  context_error = λ w. none;
}

counting-IsSendCount : IsSendCount counting (λ w. w)
counting-IsSendCount = record {
  sending = λ m w. refl;
  reporting = λ r w. refl;
  waiting = λ f w e. absurd (cc e);
  publishing = λ f queue m w e. rw (← ap (λ o. or_else o keep) e) refl;
  pausing = λ t w. refl;
}

process_international-once_example : (process_international counting hello 4).1 ≤ 5
process_international-once_example =
    process_international-once counting (λ w. w) counting-IsSendCount hello 4

-- An API that answers every report with 200, in a world that counts the reports too.
abbrev accepting : AfricasTalkingReporter ℕ
accepting = record {
  url = codes "http://api";
  token = codes "t";
  new_request = λ url. none;
  send_request = λ r w. (inl (record { status_code = 200; body = []; read_error = none }), suc w);
}

abbrev reporting : AfricasTalkingProcessor ℕ
reporting = record counting { report = report accepting }

hello_acked : (process_international reporting hello 4).0 ≡ outcome_ack
unfolding process_international validate clone network_is_valid parse_network str_eq to_upper
    trim_space is_success new_success_result report judge_report
hello_acked = refl

acked-IsAccepted_example :
    (sent_in v : ℕ) × IsAccepted accepting
      (reporting.send (clone hello) sent_in).0
      v
      (process_international reporting hello 4).1
acked-IsAccepted_example = acked-IsAccepted accepting reporting hello 4 refl hello_acked

backoff_wraps : retry_backoff 500000000 30000000000 64 ≡ pos 0
unfolding retry_backoff int_mul
backoff_wraps = refl

abbrev no_balance : AtRecipient
no_balance = record { status_code = pos 405; status = codes "InsufficientBalance"; message_id = [] }

-- A world that is the field balanceDepletedUntil, at the time 0.
abbrev broke : AfricasTalkingSender (Option ℕ)
broke = record {
  sandbox_url = codes "http://sandbox";
  production_url = codes "http://production";
  mode = codes "production";
  api_key = [];
  api_key_prod = [];
  username = codes "u";
  http_client = record {
    new_request = λ url. none;
    send_request = λ r w. (inl (record { status_code = 201; body = []; read_error = none }), w);
  };
  circuit_breaker = none;
  balance_cooldown = 600;
  recipients = λ text. some (no_balance ∷ []);
  clock = λ w. (0, w);
  depleted_until = λ w. w;
  set_depleted = λ t w. some t;
}

broke-IsField : IsField broke
broke-IsField = record { written = λ t w. refl; kept = λ w. refl }

no_balance_refused : is_accepted no_balance ≡ false
unfolding is_accepted str_eq
no_balance_refused = refl

no_balance_empty : code_is no_balance.status_code 405 ≡ true
unfolding code_is
no_balance_empty = refl

tripped :
    broke.depleted_until (some 600)
    ≡ broke.depleted_until (judge_recipients broke (some (no_balance ∷ [])) hello [] 0 0 none).1
unfolding judge_recipients str_eq
tripped = refl

send_at-refused_example :
    send_at broke hello (some 600)
    ≡ failed_since broke.clock new_permanent_result hello
        (sentinel insufficient_balance)
        0
        (some 600)
send_at-refused_example =
    send_at-refused broke broke-IsField no_balance [] hello hello [] 0 0 none (some 600)
      no_balance_refused no_balance_empty tripped (omega arith)
