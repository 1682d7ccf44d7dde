-- ===== src/Service/AfricasTalking/Backoff.antt =====
-- retryBackoff of internal/sms/service/africas_talking_processor.go.
use sms_mno_gateway.Base.{
  ℕ, zero, suc, ◌-◌, ◌*◌, ◌%◌, ◌^◌, ◌≤◌, ◌<◌, min, pos, int_mul, wrap, signed, ltb, ltb_ℤ, int_max,
  ◌&&◌, if◌then◌else◌, ◌≡◌, arith,
}
use sms_mno_gateway.Service.AfricasTalking.{retry_backoff}

wrap-small : (n : ℕ) → n ≤ int_max → wrap (pos n) ≡ pos n
unfolding wrap signed
wrap-small n h = ground arith

factor-le : (base n : ℕ) → 0 < base → n ≤ base * n
factor-le zero n h = absurd (omega arith)
factor-le (suc b) n h = omega arith

whole : (n : ℕ) → n ≤ int_max → n % 2 ^ 64 ≡ n
whole n h = omega arith

product :
    (base n : ℕ)
    → 0 < base
    → base * n ≤ int_max
    → int_mul (pos base) (wrap (pos (n % 2 ^ 64))) ≡ pos (base * n)
unfolding int_mul
product base n h small =
    let fits : n ≤ int_max = omega (arith, factor-le base n h) in
    rw (whole n fits, wrap-small n fits, int_mul) (wrap-small (base * n) small)

capped :
    (m n : ℕ) → 0 < m → (if ltb 0 m && ltb_ℤ (pos m) (pos n) then pos m else pos n) ≡ pos (min m n)
capped m n h = ground arith

-- While the doubled delay fits into an int64, the backoff is the smaller of it and the cap.
pub retry_backoff-min :
    (base max_delay attempt : ℕ)
    → 0 < base
    → 0 < max_delay
    → base * 2 ^ (attempt - 1) ≤ int_max
    → retry_backoff base max_delay attempt ≡ pos (min max_delay (base * 2 ^ (attempt - 1)))
unfolding retry_backoff
retry_backoff-min base max_delay attempt some_base some_cap small =
    rw (product base (2 ^ (attempt - 1)) some_base small, retry_backoff)
      (capped max_delay (base * 2 ^ (attempt - 1)) some_cap)
