-- ===== src/Tests/Scheduling.antt =====
-- The scheduler at concrete inputs: a queue whose weight changes while an acquireCredit waits.
use sms_mno_gateway.Base.{int_mul, put, str_eq}
use sms_mno_gateway.Service.Scheduler.{new_priority_scheduler}
use sms_mno_gateway.Service.Scheduler.Refill.{resize_credit_channel}
use sms_mno_gateway.Service.Scheduler.Steps.{is_starving}
use sms_mno_gateway.Service.Scheduler.Weights.{channels_of, eq_ℤ, set_queue_weight}
use sms_mno_gateway.Base.{
  ℕ, ◌≤◌, ◌<◌, ℤ, pos, ◌<ℤ◌, none, some, Str, codes, List, [], ◌∷◌, refl, arith, lookup,
}
use sms_mno_gateway.Service.Scheduler.{Credits, QueueState, PrioritySchedulerConfig}
use sms_mno_gateway.Service.Scheduler.Refill.{refill_queue}
use sms_mno_gateway.Service.Scheduler.Steps.{
  Waiter, SchedulerRun, SchedulerStep, SchedulerSteps, here, next, start, enter, acquire, wait,
  weigh, refill, on, leave,
}
use sms_mno_gateway.Service.Scheduler.Bounds.{credits_bounded}
use sms_mno_gateway.Service.Scheduler.Stranded.{IsGone, Serves, waiter_stranded}
use sms_mno_gateway.Service.Scheduler.Weights.{set_weight, get_or_create_queue_state}

abbrev small : PrioritySchedulerConfig
small = record {
  default_weight = pos 1;
  credit_multiplier = pos 1;
  refill_period = pos 100000000;
  max_starvation_age = pos 10000000000;
}

abbrev promo : Str
promo = codes "P"

abbrev full_queue : QueueState
full_queue = record {
  name = promo;
  weight = pos 1;
  credits = some (record { channel = 0; capacity = 1; available = 1 });
  last_processed_nano = 0;
}

abbrev empty_queue : QueueState
empty_queue = record full_queue {
  credits = some (record { channel = 0; capacity = 1; available = 0 });
}

abbrev with_queue : QueueState → List Waiter → List (Str × ℤ) → ℕ → List Credits → SchedulerRun
with_queue qs waiting weights n replaced = record {
  scheduler = record {
    queues = (promo, qs) ∷ [];
    weights = weights;
    default_weight = pos 1;
    credit_multiplier = pos 1;
    refill_period = pos 100000000;
    max_starvation_age = pos 10000000000;
    refill_period_ch = none;
    ticker = pos 100000000;
    processed_by_queue = (promo, 0) ∷ [];
    total_processed = 0;
    credits_granted = 0;
    starvation_events = 0;
    next_channel = n;
    replaced = replaced;
  };
  waiting = waiting;
}

abbrev entered_run : SchedulerRun
entered_run = with_queue full_queue [] [] 1 []

entering : SchedulerSteps (start small) entered_run
unfolding on get_or_create_queue_state start lookup new_priority_scheduler put int_mul
entering = next here (enter promo 0)

credits_bounded_example : (pos 0 <ℤ pos 1) × (0 < 1) × (1 ≤ 1)
unfolding lookup str_eq
credits_bounded_example =
    credits_bounded small entered_run promo full_queue
      (record { channel = 0; capacity = 1; available = 1 }) entering refl refl

abbrev waiting_run : SchedulerRun
waiting_run = with_queue empty_queue (record { queue = promo; channel = 0 } ∷ []) [] 1 []

waiting_for_credit : SchedulerSteps (start small) waiting_run
unfolding lookup str_eq is_starving on leave put
waiting_for_credit =
    next
      (next entering (
        acquire promo 0 full_queue (record { channel = 0; capacity = 1; available = 1 }) 0 refl refl
          refl refl))
      (wait promo 0 empty_queue (record { channel = 0; capacity = 1; available = 0 }) refl refl
        refl)

abbrev wide_queue : ℕ → QueueState
wide_queue n = record full_queue {
  weight = pos 2;
  credits = some (record { channel = 1; capacity = 2; available = n });
}

abbrev old_channel : Credits
old_channel = record { channel = 0; capacity = 1; available = 0 }

abbrev resized_run : SchedulerRun
resized_run =
    with_queue (wide_queue 0) (record { queue = promo; channel = 0 } ∷ []) ((promo, pos 2) ∷ []) 2
      (old_channel ∷ [])

resizing : SchedulerStep waiting_run resized_run
unfolding on set_weight lookup str_eq put set_queue_weight eq_ℤ resize_credit_channel int_mul
resizing = weigh promo (pos 2)

resized_run-IsGone : IsGone 0 resized_run.scheduler
unfolding channels_of
resized_run-IsGone = record {
  positive = omega arith;
  queues = ((λ e. omega (arith, e)), tt);
  channels = record { numbered = omega arith; replaced = ((λ e. refl), tt) };
}

abbrev refilled_run : SchedulerRun
refilled_run = on (refill_queue promo (wide_queue 0)) resized_run

refilling : SchedulerSteps resized_run refilled_run
unfolding lookup str_eq
refilling = next here (refill promo (wide_queue 0) refl)

-- Another goroutine takes one of the new credits; the one that waits gets none.
abbrev overtaking : SchedulerStep refilled_run (
    on
      (leave promo (wide_queue 2) (record { channel = 1; capacity = 2; available = 2 }) 1)
      refilled_run)
unfolding lookup on refill_queue put str_eq is_starving
overtaking =
    acquire promo 0 (wide_queue 2) (record { channel = 1; capacity = 2; available = 2 }) 1 refl refl
      refl refl

waiter_stranded_example : ¬ Serves 0 overtaking
waiter_stranded_example = waiter_stranded 0 resized_run-IsGone refilling overtaking
