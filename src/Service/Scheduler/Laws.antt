-- ===== src/Service/Scheduler/Laws.antt =====
-- What every step of the scheduler keeps true of the credit channels, given laws of the single
-- channel (internal/sms/service/priority_scheduler.go).
use sms_mno_gateway.Base.{
  ℕ, suc, ◌≤◌, ◌<◌, ℤ, pos, pos_part, leb_ℤ, ◌<ℤ◌, if◌then◌else◌, Option, none, some, or_else, Str,
  List, [], ◌∷◌, lookup, ◌≡◌, refl, arith, All, AllValues, lookup-AllValues, put-AllValues,
  All-middle, Bool-cases, Option-cases, inl, inr,
}
use sms_mno_gateway.Service.Scheduler.{Credits, QueueState, PriorityScheduler}
use sms_mno_gateway.Service.Scheduler.Refill.{
  credit_capacity, Channels, resized, resize_credit_channel, refill_channel, refill_queue_credits,
  refill_queue,
}
use sms_mno_gateway.Service.Scheduler.Weights.{
  eq_ℤ, set_queue_weight, reweigh_queues, channels_of, update_weights, set_weight, weighed, entered,
  new_queue_state, get_or_create_queue_state, update_config, reset_ticker, if_positive,
}
use sms_mno_gateway.Service.Scheduler.Loops.{refill_rounds_lem, transfer_lem, credit_capacity-pos}
use sms_mno_gateway.Service.Scheduler.Steps.{
  SchedulerRun, count_starvation, leave, record_processed, on, SchedulerStep, refill, reweigh,
  weigh, reconfigure, tick, enter, starve, acquire, wait, wake, wake_replaced, abandon, finish,
}

-- `N` of the identities in use, `P` of a queue's channel and `R` of a replaced one.
pub record ChannelLaw (N : ℕ → Type 0) (P R : Credits → Type 0) : Type 0 where
  pub counted : (n : ℕ) → N n → N (suc n)
  pub fresh :
      (n capacity available : ℕ)
      → N n
      → 0 < capacity
      → available ≤ capacity
      → P (record { channel = n; capacity = capacity; available = available })
  pub added :
      (c : Credits) (n : ℕ)
      → P c
      → (c.available ≤ c.capacity → n ≤ c.capacity)
      → P (record c { available = n })
  pub taken : (c : Credits) (n : ℕ) → P c → c.available ≡ suc n → P (record c { available = n })
  pub retired : (c : Credits) (n : ℕ) → P c → n ≤ c.available → R (record c { available = n })
  pub taken_replaced :
      (c : Credits) (n : ℕ) → R c → c.available ≡ suc n → R (record c { available = n })

abbrev pub OnCredits : (Credits → Type 0) → Option Credits → Type 0
OnCredits P none = Unit
OnCredits P (some c) = P c

module _ (N : ℕ → Type 0) (P R : Credits → Type 0) where
  abbrev pub OnQueue : QueueState → Type 0
  OnQueue qs = OnCredits P qs.credits

  pub record OnChannels (ch : Channels) : Type 0 where
    pub numbered : N ch.next
    pub replaced : All R ch.replaced

  pub record Holds (s : PriorityScheduler) : Type 0 where
    pub positive : pos 0 <ℤ s.credit_multiplier
    pub queues : AllValues OnQueue s.queues
    pub channels : OnChannels (channels_of s)

  module _ (law : ChannelLaw N P R) where
    resized-law :
        (n : ℕ) (c : Option Credits) (ch : Channels)
        → 0 < n
        → OnCredits P c
        → OnChannels ch
        → P (resized n c ch).0 × OnChannels (resized n c ch).1
    unfolding resized
    resized-law n none ch some_room p h = (
      law.fresh _ _ _ h.numbered some_room (omega arith),
      record { numbered = law.counted _ h.numbered; replaced = h.replaced },
    )
    resized-law n (some c) ch some_room p h =
        let (moved, bound) = transfer_lem n c.available 0 in
        (
          law.fresh _ _ _ h.numbered some_room (omega arith),
          record {
            numbered = law.counted _ h.numbered;
            replaced = (law.retired c _ p (omega arith), h.replaced);
          },
        )

    set_queue_weight-law :
        (multiplier w : ℤ) (qs : QueueState) (ch : Channels)
        → pos 0 <ℤ multiplier
        → OnQueue qs
        → OnChannels ch
        → OnQueue (set_queue_weight multiplier w qs ch).0
          × OnChannels (set_queue_weight multiplier w qs ch).1
    unfolding set_queue_weight resize_credit_channel
    set_queue_weight-law multiplier w qs ch positive p h = elim (Bool-cases (eq_ℤ qs.weight w)) [
      | inl same ↦ rw same (p, h)
      | inr other ↦ rw other (
          resized-law (credit_capacity multiplier w) qs.credits ch
            (credit_capacity-pos multiplier w positive) p h)
    ]

    reweigh_queues-law :
        (s : PriorityScheduler) (ws : List (Str × ℤ)) (qs : List (Str × QueueState)) (ch : Channels)
        → pos 0 <ℤ s.credit_multiplier
        → AllValues OnQueue qs
        → OnChannels ch
        → AllValues OnQueue (reweigh_queues s ws qs ch).0 × OnChannels (reweigh_queues s ws qs ch).1
    unfolding reweigh_queues
    reweigh_queues-law s ws [] ch positive p h = (tt, h)
    reweigh_queues-law s ws ((name, q) ∷ qs) ch positive p h =
        let w = or_else (lookup name ws) s.default_weight in
        let first = set_queue_weight-law s.credit_multiplier w q ch positive p.0 h in
        let rest =
          reweigh_queues-law s ws qs (set_queue_weight s.credit_multiplier w q ch).1 positive p.1
            first.1 in
        ((first.0, rest.0), rest.1)

    refill_queue_credits-law :
        (d : ℤ) (qs : QueueState) → OnQueue qs → OnQueue (refill_queue_credits d qs).0
    unfolding refill_queue_credits refill_channel
    refill_queue_credits-law d qs p = elim (Option-cases qs.credits) [
      | inl e ↦ rw e tt
      | inr (c, e) ↦ rw e (
          law.added c _ (rw e at p) (λ h. omega (
            arith,
            (refill_rounds_lem (pos_part (if leb_ℤ qs.weight (pos 0) then d else qs.weight))
                c.capacity c.available 0 h).0,
          )))
    ]

    leave-law :
        (s : PriorityScheduler) (name : Str) (qs : QueueState) (c : Credits) (n : ℕ)
        → Holds s
        → lookup name s.queues ≡ some qs
        → qs.credits ≡ some c
        → c.available ≡ suc n
        → Holds (leave name qs c n s)
    unfolding leave channels_of
    leave-law s name qs c n h found e left =
        let here : OnQueue qs = lookup-AllValues OnQueue name s.queues qs h.queues found in
        record {
          positive = h.positive;
          queues =
              put-AllValues OnQueue name _ s.queues (law.taken c n (rw e at here) left) h.queues;
          channels = h.channels;
        }

    entered-law :
        (found : Option QueueState) (s : PriorityScheduler) (name : Str) (now : ℕ)
        → Holds s
        → Holds (entered found name now s).1
    unfolding entered new_queue_state channels_of
    entered-law (some qs) s name now h = h
    entered-law none s name now h = record {
      positive = h.positive;
      queues =
          put-AllValues OnQueue name _ s.queues
            (law.fresh _ _ _ h.channels.numbered
              (credit_capacity-pos s.credit_multiplier _ h.positive) (omega arith))
            h.queues;
      channels = record {
        numbered = law.counted _ h.channels.numbered;
        replaced = h.channels.replaced;
      };
    }

    weighed-law :
        (found : Option QueueState) (s : PriorityScheduler) (name : Str) (w : ℤ)
        → Holds s
        → lookup name s.queues ≡ found
        → Holds (weighed found name w s)
    unfolding weighed channels_of
    weighed-law none s name w h e = record {
      positive = h.positive;
      queues = h.queues;
      channels = h.channels;
    }
    weighed-law (some qs) s name w h e =
        let r =
          set_queue_weight-law s.credit_multiplier w qs (channels_of s) h.positive
            (lookup-AllValues OnQueue name s.queues qs h.queues e) h.channels in
        record {
          positive = h.positive;
          queues = put-AllValues OnQueue name _ s.queues r.0 h.queues;
          channels = r.1;
        }

    reset_ticker-law : (s : PriorityScheduler) → Holds s → Holds (reset_ticker s)
    unfolding reset_ticker channels_of
    reset_ticker-law s h = elim (Option-cases s.refill_period_ch) [
      | inl e ↦ rw e (record { positive = h.positive; queues = h.queues; channels = h.channels })
      | inr (n, e) ↦
          rw e (record { positive = h.positive; queues = h.queues; channels = h.channels })
    ]

    -- Every step of the scheduler keeps the laws.
    pub step-law : {s t : SchedulerRun} → SchedulerStep s t → Holds s.scheduler → Holds t.scheduler
    unfolding on set_weight get_or_create_queue_state refill_queue channels_of update_weights
        update_config if_positive count_starvation record_processed
    step-law {s} (refill name qs found) h = record {
      positive = h.positive;
      queues =
          put-AllValues OnQueue name _ s.scheduler.queues
            (refill_queue_credits-law s.scheduler.default_weight qs
              (lookup-AllValues OnQueue name s.scheduler.queues qs h.queues found))
            h.queues;
      channels = h.channels;
    }
    step-law {s} (reweigh ws) h =
        let r =
          reweigh_queues-law s.scheduler ws s.scheduler.queues (channels_of s.scheduler) h.positive
            h.queues h.channels in
        record { positive = h.positive; queues = r.0; channels = r.1 }
    step-law {s} (weigh name w) h =
        weighed-law (lookup name s.scheduler.queues) s.scheduler name w h refl
    step-law {s} (reconfigure get_int) h = record {
      positive = ground (arith, h.positive);
      queues = h.queues;
      channels = h.channels;
    }
    step-law {s} tick h = reset_ticker-law s.scheduler h
    step-law {s} (enter name now) h =
        entered-law (lookup name s.scheduler.queues) s.scheduler name now h
    step-law {s} (starve name now qs found hungry) h = record {
      positive = h.positive;
      queues = h.queues;
      channels = h.channels;
    }
    step-law {s} (acquire name now qs c n found fed e left) h =
        leave-law s.scheduler name qs c n h found e left
    step-law {s} (wait name now qs c found fed e) h = h
    step-law {s} (wake xs v ys qs c n w found e same left) h =
        leave-law s.scheduler v.queue qs c n h found e left
    step-law {s} (wake_replaced xs v ys cs c ds n w e same left) h =
        let (mine, put_back) = All-middle R cs c ds (rw e at h.channels.replaced) in
        record {
          positive = h.positive;
          queues = h.queues;
          channels = record {
            numbered = h.channels.numbered;
            replaced = put_back (record c { available = n }) (law.taken_replaced c n mine left);
          };
        }
    step-law {s} (abandon xs v ys w) h = h
    step-law {s} (finish name qs count now found) h = record {
      positive = h.positive;
      queues =
          put-AllValues OnQueue name _ s.scheduler.queues
            (lookup-AllValues OnQueue name s.scheduler.queues qs h.queues found) h.queues;
      channels = h.channels;
    }
