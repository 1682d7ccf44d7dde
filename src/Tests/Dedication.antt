-- ===== src/Tests/Dedication.antt =====
-- The dedicated workers of the transactional handler, stopped with a message in their channel.
use sms_mno_gateway.Base.{ℕ, true, false, [], ◌∷◌, refl, arith}
use sms_mno_gateway.Service.Transactional.Dedicated.{
  DedicatedState, work_capacity, started, accept, take, cancel, leave, DedicatedRun, here, next,
}
use sms_mno_gateway.Service.Transactional.Dedicated.Accounted.{IsAccounted, dedicated-IsAccounted}
use sms_mno_gateway.Tests.Fixtures.{hello, parcel}
use sms_mno_gateway.Tests.Fastpath.{fast, no_counts}

abbrev stopping : DedicatedState ℕ
stopping = record {
  msg_chan = parcel ∷ [];
  working = hello ∷ [];
  idle = 0;
  cancelled = true;
  closed = false;
  accepted = hello ∷ parcel ∷ [];
  processed = [];
  counts = no_counts;
  world = 0;
}

stopping_run : DedicatedRun fast (started fast no_counts 0) stopping
unfolding started work_capacity
stopping_run =
    next
      (next
        (next (next (next here (accept hello refl (omega arith))) (take 1 hello [] refl refl))
          (accept parcel refl (omega arith)))
        cancel)
      (leave 0 refl refl)

dedicated-IsAccounted_example : IsAccounted fast stopping
dedicated-IsAccounted_example = dedicated-IsAccounted fast no_counts 0 stopping_run
