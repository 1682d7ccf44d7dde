-- ===== src/Service/Scheduler/Bounds.antt =====
-- The bound on the credits of internal/sms/service/priority_scheduler.go in every reachable state.
use sms_mno_gateway.Base.{◌≤◌, ◌<◌, pos, ◌<ℤ◌, some, Str, lookup, ◌≡◌, arith, lookup-AllValues}
use sms_mno_gateway.Service.Scheduler.{
  Credits, QueueState, PrioritySchedulerConfig, new_priority_scheduler, positive_or,
}
use sms_mno_gateway.Service.Scheduler.Weights.{channels_of}
use sms_mno_gateway.Service.Scheduler.Steps.{SchedulerRun, SchedulerSteps, here, next, start}
use sms_mno_gateway.Service.Scheduler.Laws.{ChannelLaw, OnQueue, Holds, step-law}

abbrev Anything : {A : Type 0} → A → Type 0
Anything a = Unit

abbrev pub IsBounded : Credits → Type 0
IsBounded c = (0 < c.capacity) × (c.available ≤ c.capacity)

IsBounded-law : ChannelLaw Anything IsBounded Anything
IsBounded-law = record {
  counted = λ n h. tt;
  fresh = λ n capacity available h room fits. (room, fits);
  added = λ c n p bound. (p.0, bound p.1);
  taken = λ c n p e. (p.0, omega (arith, p.1));
  retired = λ c n p h. tt;
  taken_replaced = λ c n r e. tt;
}

start-Holds :
    (cfg : PrioritySchedulerConfig) → Holds Anything IsBounded Anything (start cfg).scheduler
unfolding start new_priority_scheduler positive_or channels_of
start-Holds cfg = record {
  positive = ground arith;
  queues = tt;
  channels = record { numbered = tt; replaced = tt };
}

run-Holds :
    (cfg : PrioritySchedulerConfig) {s : SchedulerRun}
    → SchedulerSteps (start cfg) s
    → Holds Anything IsBounded Anything s.scheduler
run-Holds cfg here = start-Holds cfg
run-Holds cfg (next r st) = step-law Anything IsBounded Anything IsBounded-law st (run-Holds cfg r)

-- Whatever the configuration, the weights and the order of the steps: the credit multiplier stays
-- positive, and the channel of a queue always has a place and never more credits than places.
pub credits_bounded :
    (cfg : PrioritySchedulerConfig) (s : SchedulerRun) (name : Str) (qs : QueueState) (c : Credits)
    → SchedulerSteps (start cfg) s
    → lookup name s.scheduler.queues ≡ some qs
    → qs.credits ≡ some c
    → (pos 0 <ℤ s.scheduler.credit_multiplier) × (0 < c.capacity) × (c.available ≤ c.capacity)
credits_bounded cfg s name qs c r found e =
    let h = run-Holds cfg r in
    let mine =
      lookup-AllValues (OnQueue Anything IsBounded Anything) name s.scheduler.queues qs h.queues
        found in
    let bound : IsBounded c = (rw e at mine) in (h.positive, bound.0, bound.1)
