-- ===== src/Rabbitmq/Brokers.antt =====
-- What NewPublisher of internal/sms/adapters/rabbitmq/publisher.go relies on in the broker, and what
-- its chains of declarations leave there.
use sms_mno_gateway.Base.{
  Option, none, some, Str, List, [], ◌∷◌, ◌≡◌, ◌>>?◌, >>?_none, each_ok, arith,
}
use sms_mno_gateway.Domain.Errors.{Error}
use sms_mno_gateway.Rabbitmq.Declarations.{DelayArgs, QueueDeclare}

-- The broker's queues with their arguments. A declaration without an error leaves the queue with the
-- arguments that it asks for, and none changes the arguments of a queue that exists: the broker
-- refuses it.
pub record IsBroker {W : Type 0} (queue_declare : QueueDeclare W)
    (args_of : Str → W → Option (Option DelayArgs)) : Type 0 where
  pub made :
      (q : Str) (a : Option DelayArgs) (w : W)
      → (queue_declare q a w).0 ≡ none
      → args_of q (queue_declare q a w).1 ≡ some a
  pub kept :
      (q p : Str) (a b : Option DelayArgs) (w : W)
      → args_of p w ≡ some b
      → args_of p (queue_declare q a w).1 ≡ some b

module _ {W : Type 0} (args_of : Str → W → Option (Option DelayArgs)) where
  abbrev pub Keeps : (W → Option Error × W) → Type 0
  Keeps f =
      (p : Str) (b : Option DelayArgs) (w : W) → args_of p w ≡ some b → args_of p (f w).1 ≡ some b

  abbrev pub Makes : (W → Option Error × W) → Str → Option DelayArgs → Type 0
  Makes f p b = (w : W) → (f w).0 ≡ none → args_of p (f w).1 ≡ some b

  pub then-Keeps : (f g : W → Option Error × W) → Keeps f → Keeps g → Keeps (f >>? g)
  then-Keeps f g F G p b w h =
      let first = F p b w h in let second = G p b (f w).1 first in ground arith

  pub then-Makes :
      (f g : W → Option Error × W) (p : Str) (b : Option DelayArgs)
      → Makes f p b
      → Keeps g
      → Makes (f >>? g) p b
  then-Makes f g p b F G w h =
      let (fine, later, same) = >>?_none f g w h in rw same (G p b (f w).1 (F w fine))

  pub last-Makes :
      (f g : W → Option Error × W) (p : Str) (b : Option DelayArgs)
      → Makes g p b
      → Makes (f >>? g) p b
  last-Makes f g p b G w h = let (fine, later, same) = >>?_none f g w h in rw same (G (f w).1 later)

  pub each-Keeps :
      {A : Type 0} (f : A → W → Option Error × W) (xs : List A)
      → ((x : A) → Keeps (f x))
      → Keeps (each_ok f xs)
  unfolding each_ok
  each-Keeps f [] F = λ p b w h. h
  each-Keeps f (x ∷ xs) F = then-Keeps (f x) (each_ok f xs) (F x) (each-Keeps f xs F)
