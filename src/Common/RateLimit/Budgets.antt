-- ===== src/Common/RateLimit/Budgets.antt =====
-- The budgets of internal/common/ratelimit/limiter.go do not share a limiter.
use sms_mno_gateway.Base.{
  ℕ, suc, ◌<◌, ℤ, pos, leb_ℤ, int_mul, if◌then◌else◌, Option, none, some, Str, List, [], ◌∷◌, All,
  AllValues, lookup, put, put-AllValues, lookup-AllValues, ◌≡◌, ◌≢◌, refl, sym, ◌∙◌, arith,
  Option-cases, inl, inr,
}
use sms_mno_gateway.Domain.Network.{
  Network, network_string, safaricom, airtel, telkom, equitel, cm, intnl, unknown,
}
use sms_mno_gateway.Ports.Queues.{GetInt}
use sms_mno_gateway.Common.RateLimit.{
  RateLibrary, RateLimits, RateConfig, RetryConfig, no_limits, limiter_of, get_main_limiter,
  set_main_limiter, new_limits, set_retry, set_retries, with_retry_config, set_found, set_rate,
  reset_each, reset, update_rates, on_bucket, limits_wait, limits_wait_retry, limits_wait_n,
  limits_wait_retry_n, limits_allow, limits_allow_retry,
}
use sms_mno_gateway.Common.RateLimit.Changes.{
  Change, given_retry, given_rate, given_config, given_reset, waited, waited_retry, waited_one,
  waited_one_retry, asked, asked_retry, change, changes,
}

-- What is relied on of the library: a limiter that is made is a new one, and waiting on a limiter, or
-- asking one, takes tokens from that one only. `made` counts the limiters, and `taken` the tokens of each.
pub record IsRateLibrary {W : Type 0} (lib : RateLibrary W) (made : W → ℕ) (taken : ℕ → W → ℕ)
    : Type 0 where
  pub fresh : (r b : ℤ) (w : W) → (lib.new_bucket r b w).0 ≡ made w
  pub counted : (r b : ℤ) (w : W) → made (lib.new_bucket r b w).1 ≡ suc (made w)
  pub limit_kept : (h : ℕ) (r : ℤ) (w : W) → made (lib.set_limit h r w) ≡ made w
  pub burst_kept : (h : ℕ) (r : ℤ) (w : W) → made (lib.set_burst h r w) ≡ made w
  pub wait_kept : (h n : ℕ) (w : W) → made (lib.wait_bucket_n h n w).1 ≡ made w
  pub wait_one_kept : (h : ℕ) (w : W) → made (lib.wait_bucket h w).1 ≡ made w
  pub allow_kept : (h : ℕ) (w : W) → made (lib.allow_bucket h w).1 ≡ made w
  pub only_own_one : (h k : ℕ) (w : W) → h ≢ k → taken k (lib.wait_bucket h w).1 ≡ taken k w
  pub only_own_allow : (h k : ℕ) (w : W) → h ≢ k → taken k (lib.allow_bucket h w).1 ≡ taken k w
  pub only_own : (h k n : ℕ) (w : W) → h ≢ k → taken k (lib.wait_bucket_n h n w).1 ≡ taken k w

module _ {ℓ κ μ} {A : Type ℓ} {P : A → Type κ} {Q : A → Type μ} where
  All-implied : ((x : A) → P x → Q x) → (xs : List A) → All P xs → All Q xs
  All-implied f [] h = tt
  All-implied f (x ∷ xs) h = (f x h.0, All-implied f xs h.1)

-- The limiters of the maps were made, and none stands in both maps.
pub record AreSeparate (l : RateLimits) (n : ℕ) : Type 0 where
  pub main_made : AllValues (λ a. (a < n) × AllValues (λ b. a ≢ b) l.retry) l.main
  pub retry_made : AllValues (λ b. b < n) l.retry

put_main :
    (k : Str) (n : ℕ) (l : RateLimits) (ds : List (Str × ℤ))
    → AreSeparate l n
    → AreSeparate (record l { main = put k n l.main; defaults = ds }) (suc n)
put_main k n l ds h = record {
  main_made =
      put-AllValues (λ a. (a < suc n) × AllValues (λ b. a ≢ b) l.retry) k n l.main
        (omega arith, All-implied (λ b less same. omega arith) l.retry h.retry_made)
        (All-implied (λ a both. (omega arith, both.1)) l.main h.main_made);
  retry_made = All-implied (λ b less. omega arith) l.retry h.retry_made;
}

put_retry :
    (k : Str) (n : ℕ) (l : RateLimits)
    → AreSeparate l n
    → AreSeparate (record l { retry = put k n l.retry }) (suc n)
put_retry k n l h = record {
  main_made =
      All-implied
        (λ a both.
          (omega arith, put-AllValues (λ b. a.1 ≢ b) k n l.retry (λ same. omega arith) both.1))
        l.main h.main_made;
  retry_made =
      put-AllValues (λ b. b < suc n) k n l.retry (omega arith)
        (All-implied (λ b less. omega arith) l.retry h.retry_made);
}

module _ {W : Type 0} (lib : RateLibrary W) (made : W → ℕ) (taken : ℕ → W → ℕ)
    (law : IsRateLibrary lib made taken) where
  Stays : (RateLimits → W → RateLimits × W) → Type 0
  Stays f =
      (l : RateLimits) (w : W) → AreSeparate l (made w) → AreSeparate (f l w).0 (made (f l w).1)

  set_main_limiter-Stays : (n : Network) (rps : ℤ) → Stays (set_main_limiter lib n rps)
  unfolding Stays set_main_limiter
  set_main_limiter-Stays n rps l w h =
      rw (law.fresh rps rps w, law.counted rps rps w) (put_main (network_string n) (made w) l _ h)

  set_retry-Stays : (burst : ℤ) (n : Network) (given : ℤ) → Stays (set_retry lib burst n given)
  unfolding Stays set_retry
  set_retry-Stays burst n given l w h =
      let rps = if leb_ℤ given (pos 0) then pos 1 else given in
      rw (law.fresh rps (int_mul rps burst) w, law.counted rps (int_mul rps burst) w)
        (put_retry (network_string n) (made w) l h)

  set_found-Stays : (o : Option ℕ) (n : Network) (rps : ℤ) → Stays (set_found lib o n rps)
  unfolding Stays set_found
  set_found-Stays none n rps l w h = h
  set_found-Stays (some k) n rps l w h =
      rw (law.burst_kept k rps (lib.set_limit k rps w), law.limit_kept k rps w)
        (record { main_made = h.main_made; retry_made = h.retry_made })

  reset_each-Stays : (ds : List (Str × ℤ)) → Stays (reset_each lib ds)
  unfolding Stays reset_each
  reset_each-Stays [] l w h = h
  reset_each-Stays ((n, rps) ∷ rest) l w h =
      let b = lib.new_bucket rps rps w in
      reset_each-Stays rest (record l { main = put n b.0 l.main }) b.1
        (rw (law.fresh rps rps w, law.counted rps rps w) (put_main n (made w) l l.defaults h))

  set_rate-Stays : (n : Network) (rps : ℤ) → Stays (set_rate lib n rps)
  unfolding set_rate Stays
  set_rate-Stays n rps l w h = set_found-Stays (lookup (network_string n) l.main) n rps l w h

  set_retries-Stays : (cfg : RetryConfig) → Stays (set_retries lib cfg)
  unfolding set_retries Stays
  set_retries-Stays cfg l w h =
      let larger =
        if leb_ℤ cfg.safaricom_smpp cfg.safaricom_sdp
        then cfg.safaricom_sdp
        else cfg.safaricom_smpp in
      set_retry-Stays _ unknown (pos 1) _ _ (
        set_retry-Stays _ intnl cfg.cm_retry _ _ (
          set_retry-Stays _ cm cfg.cm_retry _ _ (
            set_retry-Stays _ equitel cfg.equitel_retry _ _ (
              set_retry-Stays _ telkom cfg.telkom_retry _ _ (
                set_retry-Stays _ airtel cfg.airtel_retry _ _
                  (set_retry-Stays _ safaricom larger _ _ h))))))

  with_retry_config-Stays : (cfg : Option RetryConfig) → Stays (with_retry_config lib cfg)
  unfolding with_retry_config Stays
  with_retry_config-Stays none l w h = h
  with_retry_config-Stays (some cfg) l w h = set_retries-Stays cfg l w h

  update_rates-Stays : (get_int : GetInt) → Stays (update_rates lib get_int)
  unfolding update_rates Stays
  update_rates-Stays get_int l w h = set_rate-Stays unknown _ _ _ (
      set_rate-Stays intnl _ _ _ (
        set_rate-Stays cm _ _ _ (
          set_rate-Stays equitel _ _ _ (
            set_rate-Stays telkom _ _ _
              (set_rate-Stays airtel _ _ _ (set_rate-Stays safaricom _ _ _ h))))))

  new_limits-AreSeparate :
      (cfg : Option RateConfig) (w : W)
      → AreSeparate (new_limits lib cfg w).0 (made (new_limits lib cfg w).1)
  unfolding new_limits Stays
  new_limits-AreSeparate cfg w = set_main_limiter-Stays unknown _ _ _ (
      set_main_limiter-Stays intnl _ _ _ (
        set_main_limiter-Stays cm _ _ _ (
          set_main_limiter-Stays equitel _ _ _ (
            set_main_limiter-Stays telkom _ _ _ (
              set_main_limiter-Stays airtel _ _ _ (
                set_main_limiter-Stays safaricom _ no_limits w
                  (record { main_made = tt; retry_made = tt })))))))

  on_bucket-made :
      {A : Type 0} (o : Option ℕ) (act : ℕ → W → A × W) (w : W)
      → ((h : ℕ) → made (act h w).1 ≡ made w)
      → made (on_bucket lib o act w).1 ≡ made w
  unfolding on_bucket
  on_bucket-made none act w kept = refl
  on_bucket-made (some h) act w kept = kept h

  change-Stays : (c : Change) → Stays (change lib c)
  unfolding change Stays reset limits_wait_n limits_wait_retry_n limits_wait limits_wait_retry
      limits_allow limits_allow_retry
  change-Stays (given_retry cfg) l w h = with_retry_config-Stays cfg l w h
  change-Stays (given_rate n rps) l w h = set_rate-Stays n rps l w h
  change-Stays (given_config get_int) l w h = update_rates-Stays get_int l w h
  change-Stays given_reset l w h = reset_each-Stays l.defaults l w h
  change-Stays (waited n k) l w h =
      rw
        (on_bucket-made (get_main_limiter l n) (λ b. lib.wait_bucket_n b k) w
          (λ b. law.wait_kept b k w))
        h
  change-Stays (waited_retry n k) l w h =
      rw
        (on_bucket-made (limiter_of l.retry n) (λ b. lib.wait_bucket_n b k) w
          (λ b. law.wait_kept b k w))
        h
  change-Stays (waited_one n) l w h =
      rw (on_bucket-made (get_main_limiter l n) lib.wait_bucket w (λ b. law.wait_one_kept b w)) h
  change-Stays (waited_one_retry n) l w h =
      rw (on_bucket-made (limiter_of l.retry n) lib.wait_bucket w (λ b. law.wait_one_kept b w)) h
  change-Stays (asked n) l w h =
      rw (on_bucket-made (get_main_limiter l n) lib.allow_bucket w (λ b. law.allow_kept b w)) h
  change-Stays (asked_retry n) l w h =
      rw (on_bucket-made (limiter_of l.retry n) lib.allow_bucket w (λ b. law.allow_kept b w)) h

  changes-Stays : (cs : List Change) → Stays (changes lib cs)
  unfolding changes Stays
  changes-Stays [] l w h = h
  changes-Stays (c ∷ cs) l w h = changes-Stays cs _ _ (change-Stays c l w h)

  limiter_of-AllValues :
      (P : ℕ → Type 0) (m : List (Str × ℕ)) (n : Network) (a : ℕ)
      → AllValues P m
      → limiter_of m n ≡ some a
      → P a
  unfolding limiter_of
  limiter_of-AllValues P m n a h e = elim (Option-cases (lookup (network_string n) m)) [
    | inr (b, there) ↦
        lookup-AllValues P (network_string n) m a h (there ∙ (rw (there, limiter_of) at e))
    | inl missing ↦
        lookup-AllValues P (network_string unknown) m a h (rw (missing, limiter_of) at e)
  ]

  on_bucket-other :
      {A : Type 0} (o : Option ℕ) (act : ℕ → W → A × W) (a : ℕ) (w : W)
      → ((b : ℕ) → b ≢ a → taken a (act b w).1 ≡ taken a w)
      → ((b : ℕ) → o ≡ some b → a ≢ b)
      → taken a (on_bucket lib o act w).1 ≡ taken a w
  unfolding on_bucket
  on_bucket-other none act a w own apart = refl
  on_bucket-other (some b) act a w own apart = own b (λ same. apart b refl (sym same))

  -- With a rate library that makes new limiters and whose waits and questions touch their own limiter
  -- only: after New and any sequence of attaching retry budgets, setting rates, updates of the dynamic
  -- configuration, resets, waits and questions for a token, each of the three calls for a retry queue
  -- (WaitRetryN, WaitRetry and AllowRetry) takes no token from the limiter of the main queues of any
  -- network.
  pub budgets_apart :
      (cfg : Option RateConfig) (cs : List Change) (w : W) (n n' : Network) (k a : ℕ)
      → get_main_limiter (changes lib cs (new_limits lib cfg w).0 (new_limits lib cfg w).1).0 n
        ≡ some a
      → (let now = changes lib cs (new_limits lib cfg w).0 (new_limits lib cfg w).1 in
          (taken a (limits_wait_retry_n lib now.0 n' k now.1).1 ≡ taken a now.1)
          × (taken a (limits_wait_retry lib now.0 n' now.1).1 ≡ taken a now.1)
          × (taken a (limits_allow_retry lib now.0 n' now.1).1 ≡ taken a now.1))
  unfolding limits_wait_retry_n limits_wait_retry limits_allow_retry get_main_limiter Stays
  budgets_apart cfg cs w n n' k a here =
      let start = new_limits lib cfg w in
      let now = changes lib cs start.0 start.1 in
      let apart = changes-Stays cs start.0 start.1 (new_limits-AreSeparate cfg w) in
      let mine = limiter_of-AllValues _ now.0.main n a apart.main_made here in
      let other = limiter_of now.0.retry n' in
      let apart_from : (b : ℕ) → other ≡ some b → a ≢ b =
        λ b there. limiter_of-AllValues _ now.0.retry n' b mine.1 there in
      (
        on_bucket-other other (λ b. lib.wait_bucket_n b k) a now.1 (λ b. law.only_own b a k now.1)
            apart_from,
        on_bucket-other other lib.wait_bucket a now.1 (λ b. law.only_own_one b a now.1) apart_from,
        on_bucket-other other lib.allow_bucket a now.1 (λ b. law.only_own_allow b a now.1)
            apart_from,
      )
