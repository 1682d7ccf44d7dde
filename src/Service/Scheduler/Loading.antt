-- ===== src/Service/Scheduler/Loading.antt =====
-- loadWeights and watchWeights of internal/sms/service/priority_scheduler.go, with the priority store
-- of internal/sms/adapters/redis/priority_store.go.
use sms_mno_gateway.Base.{ℤ, Option, none, some, Str, List, ◌⊎◌, inl, inr}
use sms_mno_gateway.Domain.Errors.{Error}
use sms_mno_gateway.Redis.{RedisClient}
use sms_mno_gateway.Redis.PriorityStore.{StoreSettings, Store, get_queue_weights}
use sms_mno_gateway.Service.Scheduler.{PriorityScheduler}
use sms_mno_gateway.Service.Scheduler.Weights.{update_weights}

unfoldable pub loaded :
    List (Str × ℤ) ⊎ Error → PriorityScheduler → Option Error × PriorityScheduler
loaded (inl weights) s = (none, update_weights weights s)
loaded (inr e) s = (some e, s)

-- loadWeights with a store: its error, the scheduler and the store.
unfoldable pub load_weights :
    {W : Type 0}
    → RedisClient W
    → StoreSettings
    → Store W
    → PriorityScheduler
    → (Option Error × PriorityScheduler) × Store W
unfolding loaded
load_weights redis c store s = let r = get_queue_weights redis c store in (loaded r.0 s, r.1)

-- watchWeights receives what its channel holds.
unfoldable pub receive_weights :
    Option (List (Str × ℤ)) → PriorityScheduler → Option (List (Str × ℤ)) × PriorityScheduler
receive_weights none s = (none, s)
receive_weights (some weights) s = (none, update_weights weights s)
