-- ===== src/Service/Scheduler/Loops.antt =====
-- The loops of internal/sms/service/priority_scheduler.go over a credit channel in closed form.
use sms_mno_gateway.Base.{
  ℕ, zero, suc, ◌+◌, ◌-◌, ◌≤◌, ◌<◌, min, ℤ, pos, ◌<ℤ◌, ltb, ◌≡◌, arith, Bool-cases, inl, inr,
}
use sms_mno_gateway.Service.Scheduler.Refill.{credit_capacity, transfer, refill_rounds}

-- The transfer loop moves what the new channel has room for.
pub transfer_lem :
    (places old new : ℕ)
    → ((transfer places old new).0 ≡ old - places)
      × ((transfer places old new).1 ≡ new + min places old)
unfolding transfer
transfer_lem zero old new = (omega arith, omega arith)
transfer_lem (suc places) zero new = (omega arith, omega arith)
transfer_lem (suc places) (suc old) new =
    let ih = transfer_lem places old (suc new) in (omega (arith, ih.0), omega (arith, ih.1))

-- The refill loop, on a channel with no more credits than places, adds one credit in each round until
-- the channel is full: it ends with the smaller of the capacity and the credits plus the rounds, and
-- counts what it has added.
pub refill_rounds_lem :
    (rounds capacity available added : ℕ)
    → available ≤ capacity
    → ((refill_rounds rounds capacity available added).0 ≡ min capacity (available + rounds))
      × ((refill_rounds rounds capacity available added).1
          ≡ added + (min capacity (available + rounds) - available))
unfolding refill_rounds
refill_rounds_lem zero capacity available added h = (omega arith, omega arith)
refill_rounds_lem (suc rounds) capacity available added h =
    elim (Bool-cases (ltb available capacity)) [
      | inl room ↦
          let ih = refill_rounds_lem rounds capacity (suc available) (suc added) (ground arith) in
          ground (arith, ih.0, ih.1)
      | inr full ↦
          let ih = refill_rounds_lem rounds capacity available added h in ground (arith, ih.0, ih.1)
    ]

-- A channel always has a place, whatever the weight and the wrap-around of the product.
pub credit_capacity-pos :
    (multiplier weight : ℤ) → pos 0 <ℤ multiplier → 0 < credit_capacity multiplier weight
unfolding credit_capacity
credit_capacity-pos multiplier weight positive = ground arith
