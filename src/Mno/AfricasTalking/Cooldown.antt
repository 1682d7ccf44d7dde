-- ===== src/Mno/AfricasTalking/Cooldown.antt =====
-- The cooldown of internal/sms/adapters/mno/africas_talking.go after a response 405.
use sms_mno_gateway.Base.{
  ℕ, ◌+◌, ◌<◌, ltb, ◌≡◌, refl, ap, ◌∙◌, true, false, some, Str, List, ◌∷◌, arith,
}
use sms_mno_gateway.Domain.Errors.{sentinel, insufficient_balance}
use sms_mno_gateway.Domain.Message.{Message}
use sms_mno_gateway.Domain.Result.{new_permanent_result}
use sms_mno_gateway.Mno.{failed_since}
use sms_mno_gateway.Mno.AfricasTalking.{
  AfricasTalkingSender, AtRecipient, code_is, is_accepted, is_cooling, trip_balance_cooldown,
  judge_recipient, judge_recipients, send_unless_cooling, send_at,
}

-- The field balanceDepletedUntil: a time that is written is read back, and the clock leaves it.
pub record IsField {W : Type 0} (s : AfricasTalkingSender W) : Type 0 where
  pub written : (t : ℕ) (w : W) → s.depleted_until (s.set_depleted t w) ≡ some t
  pub kept : (w : W) → s.depleted_until (s.clock w).1 ≡ s.depleted_until w

module _ {W : Type 0} (s : AfricasTalkingSender W) (field : IsField s) where
  after_clock : W → W
  after_clock w = (s.clock w).1

  ltb-true : (m n : ℕ) → m < n → ltb m n ≡ true
  ltb-true m n h = ground arith

  is_cooling-before :
      (until : ℕ) (w : W)
      → s.depleted_until w ≡ some until
      → (s.clock w).0 < until
      → is_cooling s w ≡ (true, (s.clock w).1)
  unfolding is_cooling
  is_cooling-before until w set early =
      rw (set, is_cooling) (ap (λ b. (b, (s.clock w).1)) (ltb-true _ _ early))

  judge_recipients-trips :
      (r : AtRecipient) (rs : List AtRecipient) (m : Message) (text : Str) (latency now : ℕ) (w : W)
      → is_accepted r ≡ false
      → code_is r.status_code 405 ≡ true
      → (judge_recipients s (some (r ∷ rs)) m text latency now w).1 ≡ trip_balance_cooldown s w
  unfolding judge_recipients judge_recipient
  judge_recipients-trips r rs m text latency now w refused empty =
      rw (refused, empty, judge_recipient) refl

  trip-depleted :
      (w : W)
      → s.depleted_until (trip_balance_cooldown s w) ≡ some ((s.clock w).0 + s.balance_cooldown)
  unfolding trip_balance_cooldown
  trip-depleted w = field.written _ _

  -- With a field balanceDepletedUntil that keeps what is written: after a response whose first
  -- recipient has the code 405 and is not accepted (neither by its code nor by the status Success), a
  -- send that finds the field as that response has left it, within the cooldown, fails for good with
  -- the error insufficient balance, and does nothing but read the clock: once for the start, once for the
  -- cooldown and once for the result.
  pub send_at-refused :
      (r : AtRecipient) (rs : List AtRecipient) (m m' : Message) (text : Str) (latency now : ℕ)
      (w v : W)
      → is_accepted r ≡ false
      → code_is r.status_code 405 ≡ true
      → s.depleted_until v
        ≡ s.depleted_until (judge_recipients s (some (r ∷ rs)) m text latency now w).1
      → (s.clock (s.clock v).1).0 < (s.clock w).0 + s.balance_cooldown
      → send_at s m' v
        ≡ failed_since s.clock new_permanent_result m'
            (sentinel insufficient_balance)
            (s.clock v).0
            (s.clock (s.clock v).1).1
  unfolding send_at send_unless_cooling
  send_at-refused r rs m m' text latency now w v refused empty same early =
      let set =
        field.kept v
        ∙ same
        ∙ ap s.depleted_until (judge_recipients-trips r rs m text latency now w refused empty)
        ∙ trip-depleted w in
      rw (is_cooling-before _ (s.clock v).1 set early, send_at) refl
