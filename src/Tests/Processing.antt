-- ===== src/Tests/Processing.antt =====
-- The processor and its worker pool at concrete inputs.
use sms_mno_gateway.Base.{str_eq, to_upper, trim_space}
use sms_mno_gateway.Domain.Network.{network_is_valid, parse_network}
use sms_mno_gateway.Service.Processor.Pool.{take_message}
use mathlib.Core.List.{append-nil}
use sms_mno_gateway.Base.{
  ℕ, suc, ◌≤◌, true, false, none, some, List, [], ◌∷◌, map, Perm, inl, inr, ◌⊎◌, ◌≡◌, refl, ap,
  or_else, arith,
}
use sms_mno_gateway.Domain.Errors.{Error, sentinel, missing_content, mno_timeout}
use sms_mno_gateway.Domain.Message.{Message, validate, network}
use sms_mno_gateway.Domain.Result.{SendResult, BatchResult, add_results, new_batch_result}
use sms_mno_gateway.Domain.Outcome.{origin, AreResultsOf, new_success_result-IsResultOf}
use sms_mno_gateway.Domain.Batch.{
  IsSorted, origins, add_results-IsSorted, add_results-origins, AreResultsOf-origins,
  new_batch_result-IsSorted, new_batch_result-origins,
}
use sms_mno_gateway.Ports.Queues.{Delivery}
use sms_mno_gateway.Ports.Senders.{MnoSender, IsFaithful, IsFaithfulFactory}
use sms_mno_gateway.Service.Processor.{Processor}
use sms_mno_gateway.Service.Processor.Single.{process_message, rate_limit}
use sms_mno_gateway.Service.Processor.Batch.{process_batch, process_delivery}
use sms_mno_gateway.Service.Processor.Conserved.{IsCompletePool, process_batch_complete}
use sms_mno_gateway.Service.Processor.Pool.{
  PoolState, start, PoolStep, put, close, take, deliver, retire, PoolRun, here, next, IsFinished,
  collected,
}
use sms_mno_gateway.Service.Processor.Pool.Account.{pool_complete}
use sms_mno_gateway.Service.Processor.Pool.Progress.{pool_run_bound, pool_progress, run_length}
use sms_mno_gateway.Service.Processor.Pool.Shutdown.{shutdown_acks_unsent}
use sms_mno_gateway.Tests.Fixtures.{
  hello, parcel, good_sender, accept_all, one_sender, open_limiter, simple_processor,
}

accept_all-AreResultsOf : (ms : List Message) (w : ℕ) → AreResultsOf ms (accept_all ms w).0
accept_all-AreResultsOf [] w = tt
accept_all-AreResultsOf (m ∷ ms) w =
    (new_success_result-IsResultOf m [] 0 w, accept_all-AreResultsOf ms w)

good_sender-IsFaithful : IsFaithful good_sender
good_sender-IsFaithful = record {
  sends = λ m w. new_success_result-IsResultOf m [] 0 w;
  sends_batch = λ f ms w e. rw (← ap (λ o. or_else o accept_all) e) (accept_all-AreResultsOf ms w);
}

abbrev sender_of : MnoSender ℕ ⊎ Error → MnoSender ℕ
sender_of (inl s) = s
sender_of (inr e) = good_sender

pub one_sender-IsFaithful : IsFaithfulFactory one_sender
one_sender-IsFaithful = record {
  by_message = λ m s e. rw (← ap sender_of e) good_sender-IsFaithful;
  by_network = λ n s e. rw (← ap sender_of e) good_sender-IsFaithful;
}

-- Every message is accepted at once.
accepting : List Message → ℕ → BatchResult × ℕ
accepting ms w = let r = accept_all ms w in (add_results r.0 new_batch_result, r.1)

accepting-IsCompletePool : IsCompletePool simple_processor accepting
unfolding accepting
accepting-IsCompletePool ms w = (
  add_results-IsSorted (accept_all ms w).0 new_batch_result new_batch_result-IsSorted,
  rw
      (
        new_batch_result-origins,
        append-nil,
        AreResultsOf-origins ms _ (accept_all-AreResultsOf ms w),
      )
      at (add_results-origins (accept_all ms w).0 new_batch_result),
)

abbrev batching : Processor ℕ
batching = record simple_processor { sdp_batch_size = 2 }

abbrev two_messages : List Message
two_messages = hello ∷ parcel ∷ []

process_batch_complete_example :
    IsSorted (process_batch batching accepting two_messages 0).0
    × Perm (origins (process_batch batching accepting two_messages 0).0) (map origin two_messages)
process_batch_complete_example =
    process_batch_complete batching accepting accepting-IsCompletePool two_messages 0 (omega arith)
      one_sender-IsFaithful

abbrev blank : Message
blank = record hello { content = [] }

blank_invalid : validate blank ≡ some (sentinel missing_content)
unfolding validate
blank_invalid = refl

hello_valid : validate hello ≡ none
unfolding validate network_is_valid parse_network str_eq to_upper trim_space
hello_valid = refl

abbrev impatient : Processor ℕ
impatient = record simple_processor {
  rate_limiter = record open_limiter { wait = λ n w. (some (sentinel mno_timeout), suc w) };
}

limited : (rate_limit impatient (network hello) 1).0 ≡ some (sentinel mno_timeout)
unfolding rate_limit
limited = refl

abbrev tripped : MnoSender ℕ
tripped = record good_sender { is_healthy = λ w. (false, w) }

abbrev tripped_processor : Processor ℕ
tripped_processor = record simple_processor {
  router = record one_sender { get_sender = λ m. inl tripped };
}

unlimited : (rate_limit tripped_processor (network hello) 1).0 ≡ none
unfolding rate_limit
unlimited = refl

-- The pool of one message: it is sent, the channel closed, and the worker takes it, delivers its
-- result and ends.
abbrev answered : SendResult
answered = (process_message simple_processor hello 0).0

abbrev emptied : PoolState ℕ
emptied = record {
  feed = [];
  feeding = false;
  closed = true;
  msgs = [];
  idle = 0;
  held = [];
  results = answered ∷ [];
  cancelled = false;
  world = (process_message simple_processor hello 0).1;
}

pool_run : PoolRun simple_processor (start simple_processor (hello ∷ []) 0) emptied
unfolding start take_message
pool_run =
    next
      (next
        (next (next (next here (put _ hello [] refl refl)) (close _ refl refl))
          (take _ 0 hello [] refl refl))
        (deliver _ [] answered [] refl))
      (retire _ 0 refl refl refl)

emptied-IsFinished : IsFinished emptied
emptied-IsFinished = record { none_idle = refl; none_busy = refl }

pool_complete_example :
    IsSorted (collected emptied) × Perm (origins (collected emptied)) (origin hello ∷ [])
pool_complete_example =
    pool_complete simple_processor one_sender-IsFaithful (hello ∷ []) 0 emptied (omega arith)
      pool_run refl emptied-IsFinished

pool_run_bound_example : run_length simple_processor pool_run ≤ 6
pool_run_bound_example = pool_run_bound simple_processor (hello ∷ []) 0 emptied pool_run

pool_progress_example :
    IsFinished emptied ⊎ ((t : PoolState ℕ) × PoolStep simple_processor emptied t)
pool_progress_example =
    pool_progress simple_processor (hello ∷ []) 0 emptied one_sender-IsFaithful pool_run refl

abbrev handed_over : Delivery ℕ
handed_over = record { messages = hello ∷ []; ack = λ w. (none, w); nack = λ requeue w. (none, w) }

shutdown_acks_unsent_example :
    (s : PoolState ℕ) × PoolRun simple_processor (start simple_processor (hello ∷ []) 0) s
    × IsFinished s
    × (process_delivery simple_processor (λ ms v. (collected s, s.world)) handed_over 0 ≡ (none, 0))
shutdown_acks_unsent_example =
    shutdown_acks_unsent simple_processor handed_over 0 (λ e. cc) (omega arith) refl
