-- ===== src/Service/Scheduler.antt =====
-- internal/sms/service/priority_scheduler.go. Each critical section of the scheduler's mutex is one
-- function of its state.
pub mod Refill
pub mod Weights
pub mod Steps
pub mod Loops
pub mod Laws
pub mod Bounds
pub mod Stranded
pub mod Loading
pub mod Followed
use sms_mno_gateway.Base.{ℕ, ℤ, pos, Bool, if◌then◌else◌, Option, none, some, Str, List, [], leb_ℤ}

-- A buffered channel of empty structs. Its identity is a number, since goroutines that wait on a
-- channel still wait on it when the queue has a new one.
pub record Credits : Type 0 where
  pub channel : ℕ
  pub capacity : ℕ
  pub available : ℕ

pub record QueueState : Type 0 where
  pub name : Str
  pub weight : ℤ
  pub credits : Option Credits
  pub last_processed_nano : ℕ

-- `next_channel` is the identity of the next channel that is made, and `replaced` holds the channels
-- that a resize has replaced, with the credits that stayed in them. `refill_period_ch` is the channel
-- of capacity 1, `ticker` the period of the refill loop's ticker.
pub record PriorityScheduler : Type 0 where
  pub queues : List (Str × QueueState)
  pub weights : List (Str × ℤ)
  pub default_weight : ℤ
  pub credit_multiplier : ℤ
  pub refill_period : ℤ
  pub max_starvation_age : ℤ
  pub refill_period_ch : Option ℤ
  pub ticker : ℤ
  pub processed_by_queue : List (Str × ℕ)
  pub total_processed : ℕ
  pub credits_granted : ℕ
  pub starvation_events : ℕ
  pub next_channel : ℕ
  pub replaced : List Credits

pub record PrioritySchedulerConfig : Type 0 where
  pub default_weight : ℤ
  pub credit_multiplier : ℤ
  pub refill_period : ℤ
  pub max_starvation_age : ℤ

unfoldable pub positive_or : ℤ → ℤ → ℤ
positive_or d n = if leb_ℤ n (pos 0) then d else n

-- NewPriorityScheduler, with the ticker of Start: 1 for the weight, 10 for the multiplier, 100 ms
-- for the period and 10 s for the age, unless the configuration has positive numbers.
unfoldable pub new_priority_scheduler : PrioritySchedulerConfig → PriorityScheduler
unfolding positive_or
new_priority_scheduler cfg = record {
  queues = [];
  weights = [];
  default_weight = positive_or (pos 1) cfg.default_weight;
  credit_multiplier = positive_or (pos 10) cfg.credit_multiplier;
  refill_period = positive_or (pos 100000000) cfg.refill_period;
  max_starvation_age = positive_or (pos 10000000000) cfg.max_starvation_age;
  refill_period_ch = none;
  ticker = positive_or (pos 100000000) cfg.refill_period;
  processed_by_queue = [];
  total_processed = 0;
  credits_granted = 0;
  starvation_events = 0;
  next_channel = 0;
  replaced = [];
}
