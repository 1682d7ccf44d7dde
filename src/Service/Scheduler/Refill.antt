-- ===== src/Service/Scheduler/Refill.antt =====
-- The credit channels of internal/sms/service/priority_scheduler.go: resizeCreditChannel and
-- refillQueueCredits.
use sms_mno_gateway.Base.{
  ℕ, zero, suc, ◌+◌, ◌%◌, ◌^◌, ℤ, pos, pos_part, int_mul, leb_ℤ, if◌then◌else◌, ltb, Option, none,
  some, Str, List, ◌∷◌, put,
}
use sms_mno_gateway.Service.Scheduler.{Credits, QueueState, PriorityScheduler}

-- The capacity of a channel for a weight: the product, or the multiplier if that is not positive.
unfoldable pub credit_capacity : ℤ → ℤ → ℕ
credit_capacity multiplier weight =
    let n = int_mul weight multiplier in pos_part (if leb_ℤ n (pos 0) then multiplier else n)

-- The transfer loop with so many places left: the credits that remain in the old channel, and those
-- in the new one.
unfoldable pub transfer : ℕ → ℕ → ℕ → ℕ × ℕ
transfer zero old new = (old, new)
transfer (suc places) zero new = (zero, new)
transfer (suc places) (suc old) new = transfer places old (suc new)

-- The refill loop with so many rounds left: the credits in the channel, and those that were added.
-- The `break` of a full channel only leaves the select statement.
unfoldable pub refill_rounds : ℕ → ℕ → ℕ → ℕ → ℕ × ℕ
refill_rounds zero capacity available added = (available, added)
refill_rounds (suc rounds) capacity available added =
    let room = ltb available capacity in
    refill_rounds rounds capacity (if room then suc available else available)
      (if room then suc added else added)

-- The channels of a scheduler: the identity for the next one, and the replaced ones.
pub record Channels : Type 0 where
  pub next : ℕ
  pub replaced : List Credits

unfoldable pub resized : ℕ → Option Credits → Channels → Credits × Channels
unfolding transfer
resized n none ch =
    (record { channel = ch.next; capacity = n; available = 0 }, record ch { next = suc ch.next })
resized n (some c) ch =
    let moved = transfer n c.available 0 in
    (
      record { channel = ch.next; capacity = n; available = moved.1 },
      record { next = suc ch.next; replaced = record c { available = moved.0 } ∷ ch.replaced },
    )

unfoldable pub resize_credit_channel : ℤ → QueueState → ℤ → Channels → QueueState × Channels
unfolding resized credit_capacity
resize_credit_channel multiplier qs new_weight ch =
    let r = resized (credit_capacity multiplier new_weight) qs.credits ch in
    (record qs { credits = some r.0 }, r.1)

unfoldable pub refill_channel : ℕ → Credits → Credits × ℕ
unfolding refill_rounds
refill_channel n c =
    let r = refill_rounds n c.capacity c.available 0 in (record c { available = r.0 }, r.1)

unfoldable pub refill_queue_credits : ℤ → QueueState → QueueState × ℕ
unfolding refill_channel
refill_queue_credits default_weight qs = elim qs.credits [
  | none ↦ (qs, 0)
  | some c ↦
      let n = if leb_ℤ qs.weight (pos 0) then default_weight else qs.weight in
      let r = refill_channel (pos_part n) c in (record qs { credits = some r.0 }, r.1)
]

-- One round of refillAllCredits, which calls it for each queue. The counter is a uint64.
unfoldable pub refill_queue : Str → QueueState → PriorityScheduler → PriorityScheduler
unfolding refill_queue_credits
refill_queue name qs s =
    let r = refill_queue_credits s.default_weight qs in
    record s {
      queues = put name r.0 s.queues;
      credits_granted = (s.credits_granted + r.1) % 2 ^ 64;
    }
