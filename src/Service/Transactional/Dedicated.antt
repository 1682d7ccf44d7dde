-- ===== src/Service/Transactional/Dedicated.antt =====
-- Handle, Start, Stop and the dedicated workers of internal/sms/service/transactional_handler.go, as
-- a step relation in which a select takes any ready case. A Handle that returns the error of a
-- context changes nothing; one that sends on the closed channel panics and has no step.
pub mod Accounted
use sms_mno_gateway.Base.{ℕ, suc, ◌*◌, ◌<◌, Bool, true, false, List, [], ◌∷◌, ◌++◌, ◌≡◌, length}
use sms_mno_gateway.Domain.Message.{Message}
use sms_mno_gateway.Service.Transactional.{TransactionalHandler, Counts, process_work}

-- `msg_chan` holds the messages of the channel, `working` those of the workers. `accepted` and
-- `processed` are the messages that Handle has taken and processWork has finished so far.
pub record DedicatedState (W : Type 0) : Type 0 where
  pub msg_chan : List Message
  pub working : List Message
  pub idle : ℕ
  pub cancelled : Bool
  pub closed : Bool
  pub accepted : List Message
  pub processed : List Message
  pub counts : Counts
  pub world : W

module _ {W : Type 0} (h : TransactionalHandler W) where
  -- The capacity of the channel.
  unfoldable pub work_capacity : ℕ
  work_capacity = h.worker_count * 10

  -- Start.
  unfoldable pub started : Counts → W → DedicatedState W
  started n w = record {
    msg_chan = [];
    working = [];
    idle = h.worker_count;
    cancelled = false;
    closed = false;
    accepted = [];
    processed = [];
    counts = n;
    world = w;
  }

  unfoldable pub after_work :
      DedicatedState W → List Message → Message → List Message → DedicatedState W
  after_work s xs m ys =
      let r = process_work h m (s.counts, s.world) in
      record s {
        working = xs ++ ys;
        idle = suc s.idle;
        processed = s.processed ++ m ∷ [];
        counts = r.1.0;
        world = r.1.1;
      }

  pub data DedicatedStep (s : DedicatedState W) : DedicatedState W → Type 0 where
    accept :
        (m : Message)
        → s.closed ≡ false
        → length s.msg_chan < work_capacity
        → DedicatedStep s
            (record s { msg_chan = s.msg_chan ++ m ∷ []; accepted = s.accepted ++ m ∷ [] })
    take :
        (n : ℕ) (m : Message) (rest : List Message)
        → s.idle ≡ suc n
        → s.msg_chan ≡ m ∷ rest
        → DedicatedStep s (record s { msg_chan = rest; working = s.working ++ m ∷ []; idle = n })
    finish :
        (xs : List Message) (m : Message) (ys : List Message)
        → s.working ≡ xs ++ (m ∷ ys)
        → DedicatedStep s (after_work s xs m ys)
    leave : (n : ℕ) → s.idle ≡ suc n → s.cancelled ≡ true → DedicatedStep s (record s { idle = n })
    leave_closed :
        (n : ℕ)
        → s.idle ≡ suc n
        → s.closed ≡ true
        → s.msg_chan ≡ []
        → DedicatedStep s (record s { idle = n })
    -- The two actions of Stop before it waits for the workers.
    cancel : DedicatedStep s (record s { cancelled = true })
    close : s.cancelled ≡ true → DedicatedStep s (record s { closed = true })

  pub data DedicatedRun (s : DedicatedState W) : DedicatedState W → Type 0 where
    here : DedicatedRun s s
    next : {t u : DedicatedState W} → DedicatedRun s t → DedicatedStep t u → DedicatedRun s u
