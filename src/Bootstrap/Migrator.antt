-- ===== src/Bootstrap/Migrator.antt =====
-- runDLQMigratorOnce and runSaveToDBDLQMigratorOnce of internal/bootstrap/app.go.
pub mod Fates
pub mod Cycle
use sms_mno_gateway.Base.{
  ℕ, Bool, true, false, ◌||◌, if◌then◌else◌, Option, none, some, Str, codes, str_eq, List, [], ◌∷◌,
  ◌++◌, ◌⊎◌, inl, inr,
}
use sms_mno_gateway.Domain.Errors.{
  Error, wrapped, error_text, sentinel_text, max_retries_exceeded, foreign,
}
use sms_mno_gateway.Domain.Message.{Message}
use sms_mno_gateway.Rabbitmq.Consumer.{Decoder}

-- The AMQP channel that a migrator opens for itself. `publish` hands a body to a queue.
pub record MigratorClient (Bytes W : Type 0) : Type 0 where
  pub new_channel : W → (ℕ ⊎ Error) × W
  pub queue_declare : ℕ → Str → W → Option Error × W
  pub consume : ℕ → Str → Str → W → Option Error × W
  pub publish : ℕ → Str → Bytes → W → Option Error × W
  pub close : ℕ → W → W

-- What the select of the loop meets.
pub data Event (Bytes : Type 0) : Type 0 where
  received : Bytes → Event Bytes
  channel_closed context_done : Event Bytes

-- What becomes of a body: published to a queue and acknowledged, or requeued.
pub data Fate (Bytes : Type 0) : Type 0 where
  forwarded : Str → Bytes → Fate Bytes
  requeued : Bytes → Fate Bytes

unfoldable pub is_exceeded : Message → Bool
is_exceeded m = str_eq m.description (sentinel_text max_retries_exceeded)

unfoldable pub any_exceeded : List Message → Bool
unfolding is_exceeded
any_exceeded [] = false
any_exceeded (m ∷ ms) = is_exceeded m || any_exceeded ms

-- The queue for a body of the dead-letter queue.
unfoldable pub dlq_route : {Bytes : Type 0} → Decoder Bytes → Str → Str → Bytes → Str
unfolding any_exceeded
dlq_route json dest_queue perm_queue body = elim (json.object body) [
  | some m ↦ if is_exceeded m then dest_queue else perm_queue
  | none ↦ elim (json.array body) [
    | some ms ↦ if any_exceeded ms then dest_queue else perm_queue
    | none ↦ perm_queue
  ]
]

module _ {Bytes W : Type 0} (client : MigratorClient Bytes W) where
  settled : Option Error → Str → Bytes → Fate Bytes
  settled none queue body = forwarded queue body
  settled (some e) queue body = requeued body

  -- The loop: what becomes of each body, and its error once it has ended.
  unfoldable pub migrate_loop :
      (Bytes → Str) → ℕ → List (Event Bytes) → W → (List (Fate Bytes) × Option (Option Error)) × W
  unfolding settled
  migrate_loop route ch [] w = (([], none), w)
  migrate_loop route ch (channel_closed ∷ later) w =
      (([], some (some (foreign (codes "channel closed")))), w)
  migrate_loop route ch (context_done ∷ later) w = (([], some none), w)
  migrate_loop route ch (received body ∷ later) w =
      let r = client.publish ch (route body) body w in
      let rest = migrate_loop route ch later r.1 in
      ((settled r.0 (route body) body ∷ rest.0.0, rest.0.1), rest.1)

  named_error : Str → Error → Error
  named_error text e = wrapped (text ++ (codes ": " ++ error_text e)) e

  unfoldable pub declare_all : ℕ → List Str → W → Option Error × W
  unfolding named_error
  declare_all ch [] w = (none, w)
  declare_all ch (q ∷ qs) w =
      let r = client.queue_declare ch q w in
      let rest = declare_all ch qs r.1 in
      elim r.0 [ none ↦ rest | some e ↦ (some (named_error (codes "declare " ++ q) e), r.1) ]

  after_consume :
      Option Error
      → Str
      → (Bytes → Str)
      → ℕ
      → List (Event Bytes)
      → W
      → (List (Fate Bytes) × Option (Option Error)) × W
  unfolding named_error migrate_loop
  after_consume (some e) source route ch events w =
      (([], some (some (named_error (codes "consume " ++ source) e))), w)
  after_consume none source route ch events w = migrate_loop route ch events w

  after_declare :
      Option Error
      → Str
      → Str
      → (Bytes → Str)
      → ℕ
      → List (Event Bytes)
      → W
      → (List (Fate Bytes) × Option (Option Error)) × W
  unfolding after_consume
  after_declare (some e) source tag route ch events w = (([], some (some e)), w)
  after_declare none source tag route ch events w =
      let r = client.consume ch source tag w in after_consume r.0 source route ch events r.1

  after_open :
      ℕ ⊎ Error
      → List Str
      → Str
      → Str
      → (Bytes → Str)
      → List (Event Bytes)
      → W
      → (List (Fate Bytes) × Option (Option Error)) × W
  unfolding after_declare declare_all named_error
  after_open (inr e) queues source tag route events w =
      (([], some (some (named_error (codes "open channel") e))), w)
  after_open (inl ch) queues source tag route events w =
      let declared = declare_all ch queues w in
      let run = after_declare declared.0 source tag route ch events declared.1 in
      (run.0, client.close ch run.1)

  -- One run of a migrator, with the queues that it declares, its source and its consumer's name.
  unfoldable pub run_once :
      List Str
      → Str
      → Str
      → (Bytes → Str)
      → List (Event Bytes)
      → W
      → (List (Fate Bytes) × Option (Option Error)) × W
  unfolding after_open
  run_once queues source tag route events w =
      let r = client.new_channel w in after_open r.0 queues source tag route events r.1

  unfoldable pub run_dlq_migrator_once :
      Decoder Bytes
      → Str
      → Str
      → Str
      → List (Event Bytes)
      → W
      → (List (Fate Bytes) × Option (Option Error)) × W
  unfolding run_once dlq_route
  run_dlq_migrator_once json dest_queue perm_queue dlq =
      run_once (dest_queue ∷ perm_queue ∷ []) dlq (codes "dlq-migrator")
        (dlq_route json dest_queue perm_queue)

  unfoldable pub run_save_to_db_dlq_migrator_once :
      Str → Str → List (Event Bytes) → W → (List (Fate Bytes) × Option (Option Error)) × W
  unfolding run_once
  run_save_to_db_dlq_migrator_once src_queue dest_queue =
      run_once (src_queue ∷ dest_queue ∷ []) src_queue (codes "save-to-db-dlq-migrator")
        (λ body. dest_queue)
