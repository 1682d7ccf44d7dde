-- ===== src/Service/Transactional/Dedicated/Accounted.antt =====
-- Where the messages are that Handle of internal/sms/service/transactional_handler.go has taken.
use mathlib.Core.List.{append_assoc, perm_middle}
use mathlib.Core.List.Perm
use sms_mno_gateway.Base.{◌+◌, ◌≤◌, List, [], ◌∷◌, ◌++◌, ◌≡◌, length, length-append, Perm, arith}
use sms_mno_gateway.Domain.Message.{Message}
use sms_mno_gateway.Service.Transactional.{TransactionalHandler, Counts}
use sms_mno_gateway.Service.Transactional.Dedicated.{
  DedicatedState, work_capacity, started, after_work, DedicatedStep, accept, take, finish, leave,
  leave_closed, cancel, close, DedicatedRun, here, next,
}

unfoldable pub places : {W : Type 0} → DedicatedState W → List Message
places s = s.processed ++ (s.working ++ s.msg_chan)

module _ {W : Type 0} (h : TransactionalHandler W) where
  -- Each accepted message is in exactly one place, and neither the channel nor the workers hold more
  -- than they can.
  pub record IsAccounted (s : DedicatedState W) : Type 0 where
    pub complete : Perm (places s) s.accepted
    pub room : length s.msg_chan ≤ work_capacity h
    pub workers : s.idle + length s.working ≤ h.worker_count

  accepted-places :
      (s : DedicatedState W) (m : Message)
      → s.processed ++ (s.working ++ (s.msg_chan ++ m ∷ [])) ≡ places s ++ m ∷ []
  unfolding places
  accepted-places s m = simp (append_assoc)

  taken-places :
      (s : DedicatedState W) (m : Message) (rest : List Message)
      → s.msg_chan ≡ m ∷ rest
      → s.processed ++ ((s.working ++ m ∷ []) ++ rest) ≡ places s
  unfolding places
  taken-places s m rest e = simp (e, append_assoc)

  finished-places :
      (s : DedicatedState W) (xs : List Message) (m : Message) (ys : List Message)
      → s.working ≡ xs ++ (m ∷ ys)
      → Perm (places (after_work h s xs m ys)) (places s)
  unfolding places after_work
  finished-places s xs m ys e =
      simp (e, append_assoc)
        (Perm.append_left s.processed (Perm.symm (perm_middle xs (ys ++ s.msg_chan))))

  step-IsAccounted : {s t : DedicatedState W} → DedicatedStep h s t → IsAccounted s → IsAccounted t
  unfolding places after_work
  step-IsAccounted {s} (accept m open_chan has_room) v = record {
    complete = rw (accepted-places s m) (Perm.append_right (m ∷ []) v.complete);
    room = ground (arith, length-append s.msg_chan (m ∷ []));
    workers = v.workers;
  }
  step-IsAccounted {s} (take n m rest i e) v = record {
    complete = rw (taken-places s m rest e) v.complete;
    room = ground (arith, v.room);
    workers = ground (arith, length-append s.working (m ∷ []));
  }
  step-IsAccounted {s} (finish xs m ys e) v = record {
    complete = Perm.trans (finished-places s xs m ys e) v.complete;
    room = v.room;
    workers = ground (arith, length-append xs (m ∷ ys), length-append xs ys);
  }
  step-IsAccounted {s} (leave n i stopped) v = record {
    complete = v.complete;
    room = v.room;
    workers = ground (arith, v.workers);
  }
  step-IsAccounted {s} (leave_closed n i stopped empty) v = record {
    complete = v.complete;
    room = v.room;
    workers = ground (arith, v.workers);
  }
  step-IsAccounted {s} cancel v = record {
    complete = v.complete;
    room = v.room;
    workers = v.workers;
  }
  step-IsAccounted {s} (close stopped) v = record {
    complete = v.complete;
    room = v.room;
    workers = v.workers;
  }

  -- Whatever Handle, the dedicated workers and Stop do after Start, in any order: each message that
  -- Handle has accepted is in the channel, at a worker, or processed, once and in one of them; the
  -- channel never holds more than ten messages for each worker, and no more workers are idle or at
  -- work than were started.
  pub dedicated-IsAccounted :
      (n : Counts) (w : W) {s : DedicatedState W} → DedicatedRun h (started h n w) s → IsAccounted s
  unfolding started places
  dedicated-IsAccounted n w here = record {
    complete = Perm.nil;
    room = omega arith;
    workers = omega arith;
  }
  dedicated-IsAccounted n w (next run step) = step-IsAccounted step (dedicated-IsAccounted n w run)
