-- ===== src/Redis/PriorityStore/Calls.antt =====
-- Sequences of calls of internal/sms/adapters/redis/priority_store.go.
use sms_mno_gateway.Base.{ℤ, Option, none, Str, List, [], ◌∷◌, ◌≡◌}
use sms_mno_gateway.Redis.{RedisClient}
use sms_mno_gateway.Redis.PriorityStore.{
  StoreSettings, Store, get_queue_weights, get_queue_weight, set_queue_weight, set_queue_weights,
  watch_notified,
}

-- The calls of a client, and the notifications of its watcher.
pub data StoreCall : Type 0 where
  read_all : StoreCall
  read_one : Str → ℤ → StoreCall
  write_one : Str → ℤ → StoreCall
  write_all : List (Str × ℤ) → StoreCall
  notified : Option (List (Str × ℤ)) → StoreCall

module _ {W : Type 0} (redis : RedisClient W) (c : StoreSettings) where
  unfoldable pub after_call : StoreCall → Store W → Store W
  unfolding get_queue_weights get_queue_weight set_queue_weight set_queue_weights watch_notified
  after_call read_all s = (get_queue_weights redis c s).1
  after_call (read_one queue d) s = (get_queue_weight redis c queue d s).1
  after_call (write_one queue weight) s = (set_queue_weight redis c queue weight s).1
  after_call (write_all ws) s = (set_queue_weights redis c ws s).1
  after_call (notified channel) s = (watch_notified redis c channel s).1

  unfoldable pub after_calls : List StoreCall → Store W → Store W
  unfolding after_call
  after_calls [] s = s
  after_calls (call ∷ calls) s = after_calls calls (after_call call s)

  -- A call that writes is answered without an error.
  abbrev pub IsWritten : StoreCall → Store W → Type 0
  IsWritten read_all s = Unit
  IsWritten (read_one queue d) s = Unit
  IsWritten (write_one queue weight) s = (set_queue_weight redis c queue weight s).0 ≡ none
  IsWritten (write_all ws) s = (set_queue_weights redis c ws s).0 ≡ none
  IsWritten (notified channel) s = Unit

  abbrev pub AreWritten : List StoreCall → Store W → Type 0
  AreWritten [] s = Unit
  AreWritten (call ∷ calls) s = IsWritten call s × AreWritten calls (after_call call s)
