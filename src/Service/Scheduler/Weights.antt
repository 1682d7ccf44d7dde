-- ===== src/Service/Scheduler/Weights.antt =====
-- The weights, the configuration and the creation of queues of
-- internal/sms/service/priority_scheduler.go.
use sms_mno_gateway.Base.{
  ℕ, suc, ◌/◌, ℤ, pos, negsuc, int_mul, leb_ℤ, ltb_ℤ, Bool, not, ◌&&◌, if◌then◌else◌, Option, none,
  some, or_else, Str, List, [], ◌∷◌, lookup, put,
}
use sms_mno_gateway.Ports.Queues.{
  GetInt, ns_scheduler_promotional, field_credit_multiplier, field_refill_period_ms,
  field_max_starvation_age_sec,
}
use sms_mno_gateway.Service.Scheduler.{QueueState, PriorityScheduler}
use sms_mno_gateway.Service.Scheduler.Refill.{Channels, resize_credit_channel, credit_capacity}

unfoldable pub eq_ℤ : ℤ → ℤ → Bool
eq_ℤ a b = leb_ℤ a b && leb_ℤ b a

-- The body of the loop of updateWeights: a weight that has changed resizes the channel.
unfoldable pub set_queue_weight : ℤ → ℤ → QueueState → Channels → QueueState × Channels
set_queue_weight multiplier w qs ch =
    if eq_ℤ qs.weight w
    then (qs, ch)
    else resize_credit_channel multiplier (record qs { weight = w }) w ch

unfoldable pub reweigh_queues :
    PriorityScheduler
    → List (Str × ℤ)
    → List (Str × QueueState)
    → Channels
    → List (Str × QueueState) × Channels
reweigh_queues s weights [] ch = ([], ch)
reweigh_queues s weights ((name, qs) ∷ rest) ch =
    let r =
      set_queue_weight s.credit_multiplier (or_else (lookup name weights) s.default_weight) qs ch in
    let later = reweigh_queues s weights rest r.1 in ((name, r.0) ∷ later.0, later.1)

unfoldable pub channels_of : PriorityScheduler → Channels
channels_of s = record { next = s.next_channel; replaced = s.replaced }

unfoldable pub update_weights : List (Str × ℤ) → PriorityScheduler → PriorityScheduler
unfolding reweigh_queues channels_of
update_weights weights s =
    let r = reweigh_queues s weights s.queues (channels_of s) in
    record s { weights = weights; queues = r.0; next_channel = r.1.next; replaced = r.1.replaced }

unfoldable pub weighed : Option QueueState → Str → ℤ → PriorityScheduler → PriorityScheduler
unfolding channels_of
weighed none name w s = record s { weights = put name w s.weights }
weighed (some qs) name w s =
    let r = set_queue_weight s.credit_multiplier w qs (channels_of s) in
    record s {
      weights = put name w s.weights;
      queues = put name r.0 s.queues;
      next_channel = r.1.next;
      replaced = r.1.replaced;
    }

unfoldable pub set_weight : Str → ℤ → PriorityScheduler → PriorityScheduler
unfolding weighed
set_weight name w s = weighed (lookup name s.queues) name w s

-- The state of a queue that is new: its channel is full.
unfoldable pub new_queue_state : Str → ℕ → PriorityScheduler → QueueState
unfolding credit_capacity
new_queue_state name now s =
    let w = or_else (lookup name s.weights) s.default_weight in
    let n = credit_capacity s.credit_multiplier w in
    record {
      name = name;
      weight = w;
      credits = some (record { channel = s.next_channel; capacity = n; available = n });
      last_processed_nano = now;
    }

unfoldable pub entered :
    Option QueueState → Str → ℕ → PriorityScheduler → QueueState × PriorityScheduler
unfolding new_queue_state
entered (some qs) name now s = (qs, s)
entered none name now s =
    let qs = new_queue_state name now s in
    (
      qs,
      record s {
        queues = put name qs s.queues;
        processed_by_queue = put name 0 s.processed_by_queue;
        next_channel = suc s.next_channel;
      },
    )

unfoldable pub get_or_create_queue_state :
    Str → ℕ → PriorityScheduler → QueueState × PriorityScheduler
unfolding entered
get_or_create_queue_state name now s = entered (lookup name s.queues) name now s

-- Go's `/` rounds to 0.
quotient : ℤ → ℕ → ℤ
quotient (pos n) d = pos (n / d)
quotient (negsuc n) d = int_mul (negsuc 0) (pos (suc n / d))

unfoldable pub if_positive : ℤ → ℤ → ℤ
if_positive new old = if ltb_ℤ (pos 0) new then new else old

-- What a notification of watchSchedulerConfig does. Seconds as a float64, cut to an int, are a whole
-- quotient for ages below weeks. The send on refillPeriodCh is lost if one is pending.
unfoldable pub update_config : GetInt → PriorityScheduler → PriorityScheduler
unfolding quotient if_positive
update_config get_int s =
    let old_ms = quotient s.refill_period 1000000 in
    let multiplier = get_int ns_scheduler_promotional field_credit_multiplier s.credit_multiplier in
    let period_ms = get_int ns_scheduler_promotional field_refill_period_ms old_ms in
    let starvation_sec =
      get_int ns_scheduler_promotional field_max_starvation_age_sec
        (quotient s.max_starvation_age 1000000000) in
    let period = int_mul period_ms (pos 1000000) in
    let pending = or_else s.refill_period_ch period in
    record s {
      credit_multiplier = if_positive multiplier s.credit_multiplier;
      refill_period = if_positive period s.refill_period;
      max_starvation_age =
          if_positive (int_mul starvation_sec (pos 1000000000)) s.max_starvation_age;
      refill_period_ch =
          if not (eq_ℤ period_ms old_ms) && ltb_ℤ (pos 0) period
          then some pending
          else s.refill_period_ch;
    }

-- creditRefillLoop receives a new period.
unfoldable pub reset_ticker : PriorityScheduler → PriorityScheduler
reset_ticker s = elim s.refill_period_ch [
  | none ↦ s
  | some period ↦ record s { ticker = period; refill_period_ch = none }
]
