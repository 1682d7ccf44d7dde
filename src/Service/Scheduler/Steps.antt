-- ===== src/Service/Scheduler/Steps.antt =====
-- What the goroutines of internal/sms/service/priority_scheduler.go do to the scheduler, one critical
-- section or one channel operation at a time: acquireCredit and ProcessMessages, beside the watchers
-- and the refill loop. A select with two ready cases takes either; an acquireCredit whose context has
-- ended changes nothing.
use sms_mno_gateway.Base.{
  ℕ, suc, ◌+◌, ◌-◌, ◌%◌, ◌^◌, ℤ, pos, ltb_ℤ, Bool, true, false, none, some, Str, List, [], ◌∷◌,
  ◌++◌, lookup, put, ◌≡◌,
}
use sms_mno_gateway.Ports.Queues.{GetInt}
use sms_mno_gateway.Service.Scheduler.{
  Credits, QueueState, PriorityScheduler, PrioritySchedulerConfig, new_priority_scheduler,
}
use sms_mno_gateway.Service.Scheduler.Refill.{refill_queue}
use sms_mno_gateway.Service.Scheduler.Weights.{
  update_weights, set_weight, get_or_create_queue_state, update_config, reset_ticker,
}

-- An acquireCredit that has read the channel of its queue and has no credit of it so far.
pub record Waiter : Type 0 where
  pub queue : Str
  pub channel : ℕ

pub record SchedulerRun : Type 0 where
  pub scheduler : PriorityScheduler
  pub waiting : List Waiter

unfoldable pub is_starving : PriorityScheduler → ℕ → QueueState → Bool
is_starving s now qs = ltb_ℤ s.max_starvation_age (pos (now - qs.last_processed_nano))

unfoldable pub count_starvation : PriorityScheduler → PriorityScheduler
count_starvation s = record s { starvation_events = (s.starvation_events + 1) % 2 ^ 64 }

-- A queue's channel has so many credits left.
unfoldable pub leave : Str → QueueState → Credits → ℕ → PriorityScheduler → PriorityScheduler
leave name qs c n s = record s {
  queues = put name (record qs { credits = some (record c { available = n }) }) s.queues;
}

-- The counters that ProcessMessages sets after a batch of so many messages.
unfoldable pub record_processed : Str → QueueState → ℕ → ℕ → PriorityScheduler → PriorityScheduler
record_processed name qs count now s = record s {
  queues = put name (record qs { last_processed_nano = now }) s.queues;
  processed_by_queue = elim (lookup name s.processed_by_queue) [
    | none ↦ s.processed_by_queue
    | some n ↦ put name ((n + count) % 2 ^ 64) s.processed_by_queue
  ];
  total_processed = (s.total_processed + count) % 2 ^ 64;
}

unfoldable pub on : (PriorityScheduler → PriorityScheduler) → SchedulerRun → SchedulerRun
on f s = record s { scheduler = f s.scheduler }

pub data SchedulerStep (s : SchedulerRun) : SchedulerRun → Type 0 where
  refill :
      (name : Str) (qs : QueueState)
      → lookup name s.scheduler.queues ≡ some qs
      → SchedulerStep s (on (refill_queue name qs) s)
  reweigh : (weights : List (Str × ℤ)) → SchedulerStep s (on (update_weights weights) s)
  weigh : (name : Str) (w : ℤ) → SchedulerStep s (on (set_weight name w) s)
  reconfigure : (get_int : GetInt) → SchedulerStep s (on (update_config get_int) s)
  tick : SchedulerStep s (on reset_ticker s)
  enter :
      (name : Str) (now : ℕ)
      → SchedulerStep s (on (λ p. (get_or_create_queue_state name now p).1) s)
  -- acquireCredit: a starving queue needs no credit; another takes one at once, or has read the
  -- channel, which may be replaced before it takes one.
  starve :
      (name : Str) (now : ℕ) (qs : QueueState)
      → lookup name s.scheduler.queues ≡ some qs
      → is_starving s.scheduler now qs ≡ true
      → SchedulerStep s (on count_starvation s)
  acquire :
      (name : Str) (now : ℕ) (qs : QueueState) (c : Credits) (n : ℕ)
      → lookup name s.scheduler.queues ≡ some qs
      → is_starving s.scheduler now qs ≡ false
      → qs.credits ≡ some c
      → c.available ≡ suc n
      → SchedulerStep s (on (leave name qs c n) s)
  wait :
      (name : Str) (now : ℕ) (qs : QueueState) (c : Credits)
      → lookup name s.scheduler.queues ≡ some qs
      → is_starving s.scheduler now qs ≡ false
      → qs.credits ≡ some c
      → SchedulerStep s
          (record s { waiting = s.waiting ++ record { queue = name; channel = c.channel } ∷ [] })
  -- A waiter gets a credit of its channel, which its queue has or had; or its context ends.
  wake :
      (xs : List Waiter) (v : Waiter) (ys : List Waiter) (qs : QueueState) (c : Credits) (n : ℕ)
      → s.waiting ≡ xs ++ (v ∷ ys)
      → lookup v.queue s.scheduler.queues ≡ some qs
      → qs.credits ≡ some c
      → c.channel ≡ v.channel
      → c.available ≡ suc n
      → SchedulerStep s
          (record { scheduler = leave v.queue qs c n s.scheduler; waiting = xs ++ ys })
  wake_replaced :
      (xs : List Waiter) (v : Waiter) (ys : List Waiter) (cs : List Credits) (c : Credits)
      (ds : List Credits) (n : ℕ)
      → s.waiting ≡ xs ++ (v ∷ ys)
      → s.scheduler.replaced ≡ cs ++ (c ∷ ds)
      → c.channel ≡ v.channel
      → c.available ≡ suc n
      → SchedulerStep s (record {
        scheduler = record (s.scheduler) { replaced = cs ++ (record c { available = n } ∷ ds) };
        waiting = xs ++ ys;
      })
  abandon :
      (xs : List Waiter) (v : Waiter) (ys : List Waiter)
      → s.waiting ≡ xs ++ (v ∷ ys)
      → SchedulerStep s (record s { waiting = xs ++ ys })
  finish :
      (name : Str) (qs : QueueState) (count now : ℕ)
      → lookup name s.scheduler.queues ≡ some qs
      → SchedulerStep s (on (record_processed name qs count now) s)

pub data SchedulerSteps (s : SchedulerRun) : SchedulerRun → Type 0 where
  here : SchedulerSteps s s
  next : {t u : SchedulerRun} → SchedulerSteps s t → SchedulerStep t u → SchedulerSteps s u

unfoldable pub start : PrioritySchedulerConfig → SchedulerRun
start cfg = record { scheduler = new_priority_scheduler cfg; waiting = [] }
