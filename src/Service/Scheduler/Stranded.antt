-- ===== src/Service/Scheduler/Stranded.antt =====
-- What a resize does to those who wait on the old channel
-- (internal/sms/service/priority_scheduler.go).
use sms_mno_gateway.Base.{ℕ, ◌<◌, ◌≡◌, ◌≢◌, ◌∙◌, arith, lookup-AllValues, All-middle}
use sms_mno_gateway.Service.Scheduler.{Credits, PriorityScheduler}
use sms_mno_gateway.Service.Scheduler.Weights.{channels_of}
use sms_mno_gateway.Service.Scheduler.Steps.{
  SchedulerRun, SchedulerStep, SchedulerSteps, here, next, wake, wake_replaced,
}
use sms_mno_gateway.Service.Scheduler.Laws.{ChannelLaw, OnQueue, Holds, step-law}

module _ (ch : ℕ) where
  abbrev pub IsUsed : ℕ → Type 0
  IsUsed n = ch < n

  abbrev pub IsOther : Credits → Type 0
  IsOther c = c.channel ≢ ch

  abbrev pub IsDrained : Credits → Type 0
  IsDrained c = c.channel ≡ ch → c.available ≡ 0

  -- A scheduler in which no queue has the channel any more and no credit stayed in it.
  abbrev pub IsGone : PriorityScheduler → Type 0
  IsGone = Holds IsUsed IsOther IsDrained

  gone-law : ChannelLaw IsUsed IsOther IsDrained
  gone-law = record {
    counted = λ n h. omega arith;
    fresh = λ n capacity available h room fits e. omega arith;
    added = λ c n p bound. p;
    taken = λ c n p e. p;
    retired = λ c n p h e. absurd (p e);
    taken_replaced = λ c n r e same. omega (arith, r same);
  }

  run-IsGone : {s t : SchedulerRun} → SchedulerSteps s t → IsGone s.scheduler → IsGone t.scheduler
  run-IsGone here g = g
  run-IsGone (next r st) g = step-law IsUsed IsOther IsDrained gone-law st (run-IsGone r g)

  -- The step hands a credit to someone who waits on the channel.
  pub Serves : {s t : SchedulerRun} → SchedulerStep s t → Type 0
  Serves (wake xs v ys qs c n w found e same left) = v.channel ≡ ch
  Serves (wake_replaced xs v ys cs c ds n w e same left) = v.channel ≡ ch
  Serves _ = ⊥

  -- Once a channel is gone, whoever waits on it gets no credit: whatever runs afterwards, refills
  -- and further resizes included, no step hands a credit to a waiter of that channel.
  pub waiter_stranded :
      {s t u : SchedulerRun}
      → IsGone s.scheduler
      → SchedulerSteps s t
      → (st : SchedulerStep t u) → ¬ Serves st
  unfolding Serves channels_of
  waiter_stranded g r (wake xs v ys qs c n w found e same left) mine =
      let h = run-IsGone r g in
      let other = lookup-AllValues (OnQueue IsUsed IsOther IsDrained) v.queue _ qs h.queues found in
      (rw e at other) (same ∙ mine)
  waiter_stranded g r (wake_replaced xs v ys cs c ds n w e same left) mine =
      let h = run-IsGone r g in
      let drained = (All-middle IsDrained cs c ds (rw e at h.channels.replaced)).0 in
      omega (arith, left, drained (same ∙ mine))
  waiter_stranded g r _ mine = absurd mine
