-- ===== src/Bootstrap/Migrator/Fates.antt =====
-- What the migrators of internal/bootstrap/app.go do with the bodies that they receive.
use sms_mno_gateway.Base.{
  ℕ, Option, none, some, Str, codes, List, [], ◌∷◌, ◌⊎◌, inl, inr, ◌≡◌, refl,
}
use sms_mno_gateway.Domain.Errors.{Error}
use sms_mno_gateway.Rabbitmq.Consumer.{Decoder}
use sms_mno_gateway.Bootstrap.Migrator.{
  MigratorClient, Event, received, channel_closed, context_done, Fate, forwarded, requeued,
  dlq_route, settled, migrate_loop, after_consume, after_declare, declare_all, after_open, run_once,
  run_dlq_migrator_once,
}

-- The bodies that are received before the loop ends.
unfoldable pub received_bodies : {Bytes : Type 0} → List (Event Bytes) → List Bytes
received_bodies [] = []
received_bodies (received body ∷ later) = body ∷ received_bodies later
received_bodies (channel_closed ∷ later) = []
received_bodies (context_done ∷ later) = []

module _ {Bytes W : Type 0} (client : MigratorClient Bytes W) (route : Bytes → Str) where
  -- What becomes of a body after its publish: published to the queue of its route, or back after an
  -- error.
  abbrev pub IsFateOf : Option Error → Bytes → Fate Bytes → Type 0
  IsFateOf none body f = f ≡ forwarded (route body) body
  IsFateOf (some e) body f = f ≡ requeued body

  -- The bodies are published one after the other from the first world to the last one, each to the
  -- queue of its route, and each has the fate of its publish.
  abbrev pub AreFatesOf : ℕ → W → List Bytes → List (Fate Bytes) → W → Type 0
  AreFatesOf ch v [] [] v' = v ≡ v'
  AreFatesOf ch v [] (f ∷ fs) v' = ⊥
  AreFatesOf ch v (body ∷ bodies) [] v' = ⊥
  AreFatesOf ch v (body ∷ bodies) (f ∷ fs) v' =
      IsFateOf (client.publish ch (route body) body v).0 body f
      × AreFatesOf ch (client.publish ch (route body) body v).1 bodies fs v'

  abbrev pub IsFailed : (List (Fate Bytes) × Option (Option Error)) × W → Type 0
  IsFailed run = (run.0.0 ≡ []) × ((e : Error) × (run.0.1 ≡ some (some e)))

  settled-IsFateOf :
      (o : Option Error) (body : Bytes) → IsFateOf o body (settled client o (route body) body)
  unfolding settled
  settled-IsFateOf none body = refl
  settled-IsFateOf (some e) body = refl

  migrate_loop-AreFatesOf :
      (ch : ℕ) (events : List (Event Bytes)) (w : W)
      → (let run = migrate_loop client route ch events w in
          AreFatesOf ch w (received_bodies events) run.0.0 run.1)
  unfolding migrate_loop received_bodies
  migrate_loop-AreFatesOf ch [] w = refl
  migrate_loop-AreFatesOf ch (channel_closed ∷ later) w = refl
  migrate_loop-AreFatesOf ch (context_done ∷ later) w = refl
  migrate_loop-AreFatesOf ch (received body ∷ later) w =
      let r = client.publish ch (route body) body w in
      (settled-IsFateOf r.0 body, migrate_loop-AreFatesOf ch later r.1)

  after_consume-AreFatesOf :
      (o : Option Error) (source : Str) (ch : ℕ) (events : List (Event Bytes)) (w : W)
      → (let run = after_consume client o source route ch events w in
          AreFatesOf ch w (received_bodies events) run.0.0 run.1 ⊎ IsFailed run)
  unfolding after_consume
  after_consume-AreFatesOf (some e) source ch events w = inr (refl, (_, refl))
  after_consume-AreFatesOf none source ch events w = inl (migrate_loop-AreFatesOf ch events w)

  after_declare-AreFatesOf :
      (o : Option Error) (source tag : Str) (ch : ℕ) (events : List (Event Bytes)) (w : W)
      → (let run = after_declare client o source tag route ch events w in
          AreFatesOf ch (client.consume ch source tag w).1 (received_bodies events) run.0.0 run.1
          ⊎ IsFailed run)
  unfolding after_declare
  after_declare-AreFatesOf (some e) source tag ch events w = inr (refl, (e, refl))
  after_declare-AreFatesOf none source tag ch events w =
      let r = client.consume ch source tag w in after_consume-AreFatesOf r.0 source ch events r.1

  -- The world in which the loop starts: the queues have been declared, and the source is consumed.
  abbrev pub before_loop : List Str → Str → Str → ℕ → W → W
  before_loop queues source tag ch w =
      (client.consume ch source tag (declare_all client ch queues w).1).1

  -- A run that opens a channel, gives each received body the fate of its publish, in order, and
  -- closes the channel; or one that has failed before the loop.
  abbrev pub RunFates :
      List Str
      → Str
      → Str
      → List (Event Bytes)
      → ℕ ⊎ Error
      → W
      → (List (Fate Bytes) × Option (Option Error)) × W
      → Type 0
  RunFates queues source tag events opened w run =
      ((ch : ℕ) × (v : W) × ((opened ≡ inl ch)
          × (AreFatesOf ch (before_loop queues source tag ch w) (received_bodies events) run.0.0 v
              × (run.1 ≡ client.close ch v))))
      ⊎ IsFailed run

  after_open-RunFates :
      (r : ℕ ⊎ Error) (queues : List Str) (source tag : Str) (events : List (Event Bytes)) (w : W)
      → RunFates queues source tag events r w (after_open client r queues source tag route events w)
  unfolding after_open
  after_open-RunFates (inr e) queues source tag events w = inr (refl, (_, refl))
  after_open-RunFates (inl ch) queues source tag events w =
      let declared = declare_all client ch queues w in
      elim (after_declare-AreFatesOf declared.0 source tag ch events declared.1) [
        | inl fates ↦ inl (ch, _, (refl, (fates, refl)))
        | inr failed ↦ inr failed
      ]

module _ {Bytes W : Type 0} (client : MigratorClient Bytes W) (json : Decoder Bytes) where
  -- Whatever the AMQP client does and however the run ends: a run of the DLQ migrator either fails
  -- before its loop, with an error and without a body, or opens a channel and, once the queues are
  -- declared and the source is consumed, publishes the bodies that it receives one after the other,
  -- each to the queue of its kind, acknowledges a body exactly if its publish gives no error and
  -- requeues it otherwise, and closes the channel behind the last one.
  pub dlq_migrator_fates :
      (dest_queue perm_queue dlq : Str) (events : List (Event Bytes)) (w : W)
      → RunFates client
          (dlq_route json dest_queue perm_queue)
          (dest_queue ∷ perm_queue ∷ [])
          dlq
          (codes "dlq-migrator")
          events
          (client.new_channel w).0
          (client.new_channel w).1
          (run_dlq_migrator_once client json dest_queue perm_queue dlq events w)
  unfolding run_dlq_migrator_once run_once
  dlq_migrator_fates dest_queue perm_queue dlq events w =
      let r = client.new_channel w in
      after_open-RunFates client (dlq_route json dest_queue perm_queue) r.0 _ dlq _ events r.1
