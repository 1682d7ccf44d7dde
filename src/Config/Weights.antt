-- ===== src/Config/Weights.antt =====
-- The text format of getEnvAsQueueWeights in internal/config/config.go.
use mathlib.Core.List.{append_assoc}
use sms_mno_gateway.Base.{
  ℕ, suc, ◌≤◌, ℤ, pos, negsuc, pos_part, neg_part, int_max, false, some, Str, str_eq, is_space,
  trim_space, itoa, atoi-itoa, decimal, decimal-IsDigit, IsDigit, split_on, split_on-lacking,
  split_on-append, cut_first, cut_first-append, Lacks, HasNoBlank, trim_space-blankless, is_empty,
  is_empty-false, All, All-append, List, [], ◌∷◌, ◌++◌, put, ◌≡◌, ◌≢◌, refl, ap, arith,
}
use sms_mno_gateway.Config.{
  Env, set_value, set_weight_of, add_pair, add_pairs, queue_weights, get_env_as_queue_weights,
}

-- A character that is no blank, no comma and no colon.
abbrev pub IsPlain : ℕ → Type 0
IsPlain c = (c ≢ b',') × (c ≢ b':') × (is_space c ≡ false)

unfoldable pub print_pair : Str × ℤ → Str
unfolding itoa
print_pair (name, weight) = name ++ (b':' ∷ itoa weight)

-- The format `QUEUE1:10,QUEUE2:5` of its comment.
unfoldable pub print_weights : List (Str × ℤ) → Str
unfolding print_pair
print_weights [] = []
print_weights (e ∷ []) = print_pair e
print_weights (e ∷ e' ∷ m) = print_pair e ++ (b',' ∷ print_weights (e' ∷ m))

-- A name of plain characters, and a weight that is an int.
pub record IsEntry (e : Str × ℤ) : Type 0 where
  pub named : e.0 ≢ []
  pub plain : All IsPlain e.0
  pub upper : pos_part e.1 ≤ int_max
  pub lower : neg_part e.1 ≤ suc int_max

-- No name stands among those before it, which `seen` has.
abbrev pub AreDistinct : List (Str × ℤ) → List (Str × ℤ) → Type 0
AreDistinct seen [] = Unit
AreDistinct seen (e ∷ m) =
    All (λ (d : Str × ℤ). str_eq d.0 e.0 ≡ false) seen × AreDistinct (seen ++ (e ∷ [])) m

put_fresh :
    (k : Str) (v : ℤ) (m : List (Str × ℤ))
    → All (λ (d : Str × ℤ). str_eq d.0 k ≡ false) m
    → put k v m ≡ m ++ ((k, v) ∷ [])
unfolding put
put_fresh k v [] h = refl
put_fresh k v ((j, w) ∷ m) h = rw (h.0) (ap (λ r. (j, w) ∷ r) (put_fresh k v m h.1))

digit-IsPlain : (c : ℕ) → IsDigit c → IsPlain c
unfolding is_space
digit-IsPlain c h = ground arith

minus-IsPlain : IsPlain b'-'
unfolding is_space
minus-IsPlain = (omega arith, omega arith, refl)

module _ {P Q : ℕ → Type 0} where
  All-weaken : ((c : ℕ) → P c → Q c) → (s : Str) → All P s → All Q s
  All-weaken f [] h = tt
  All-weaken f (c ∷ s) h = (f c h.0, All-weaken f s h.1)

itoa-IsPlain : (z : ℤ) → All IsPlain (itoa z)
unfolding itoa
itoa-IsPlain (pos n) = All-weaken digit-IsPlain (decimal n) (decimal-IsDigit n)
itoa-IsPlain (negsuc n) =
    (minus-IsPlain, All-weaken digit-IsPlain (decimal (suc n)) (decimal-IsDigit (suc n)))

colon_blank : is_space b':' ≡ false
unfolding is_space
colon_blank = refl

module _ (e : Str × ℤ) (h : IsEntry e) where
  print_pair-HasNoBlank : HasNoBlank (print_pair e)
  unfolding print_pair
  print_pair-HasNoBlank =
      All-append _ e.0 (b':' ∷ itoa e.1) (All-weaken (λ c p. p.2) e.0 h.plain)
        (colon_blank, All-weaken (λ c p. p.2) (itoa e.1) (itoa-IsPlain e.1))

  print_pair-Lacks : Lacks b',' (print_pair e)
  unfolding print_pair
  print_pair-Lacks =
      All-append _ e.0 (b':' ∷ itoa e.1) (All-weaken (λ c p. p.0) e.0 h.plain)
        (omega arith, All-weaken (λ c p. p.0) (itoa e.1) (itoa-IsPlain e.1))

  cut_pair : cut_first b':' (trim_space (print_pair e)) ≡ some (e.0, itoa e.1)
  unfolding print_pair
  cut_pair =
      rw (trim_space-blankless (print_pair e) print_pair-HasNoBlank)
        (cut_first-append b':' e.0 (itoa e.1) (All-weaken (λ c p. p.1) e.0 h.plain))

  add_printed :
      (m : List (Str × ℤ))
      → All (λ (d : Str × ℤ). str_eq d.0 e.0 ≡ false) m
      → add_pair (cut_first b':' (trim_space (print_pair e))) m ≡ m ++ (e ∷ [])
  unfolding add_pair set_weight_of
  add_printed m fresh =
      rw
        (
          cut_pair,
          trim_space-blankless e.0 (All-weaken (λ c p. p.2) e.0 h.plain),
          trim_space-blankless (itoa e.1) (All-weaken (λ c p. p.2) (itoa e.1) (itoa-IsPlain e.1)),
          atoi-itoa e.1 h.upper h.lower,
          is_empty-false e.0 h.named,
        )
        (put_fresh e.0 e.1 m fresh)

add_print_weights :
    (e : Str × ℤ) (m seen : List (Str × ℤ))
    → All IsEntry (e ∷ m)
    → AreDistinct seen (e ∷ m)
    → add_pairs (split_on b',' (print_weights (e ∷ m))) seen ≡ seen ++ (e ∷ m)
unfolding add_pairs print_weights
add_print_weights e [] seen h d =
    rw (split_on-lacking b',' (print_pair e) (print_pair-Lacks e h.0), add_pairs)
      (add_printed e h.0 seen d.0)
add_print_weights e (e' ∷ m) seen h d =
    rw
      (
        split_on-append b',' (print_pair e) (print_weights (e' ∷ m)) (print_pair-Lacks e h.0),
        add_pairs,
        add_printed e h.0 seen d.0,
        add_print_weights e' m (seen ++ (e ∷ [])) h.1 d.1,
      )
      (append_assoc seen (e ∷ []) (e' ∷ m))

print_weights-nonempty :
    (e : Str × ℤ) (m : List (Str × ℤ)) → IsEntry e → is_empty (print_weights (e ∷ m)) ≡ false
unfolding print_weights print_pair
print_weights-nonempty ([], w) m h = absurd (h.named refl)
print_weights-nonempty (c ∷ q, w) [] h = refl
print_weights-nonempty (c ∷ q, w) (e' ∷ m) h = refl

-- A variable that holds queue weights in the documented format, at least one, with distinct names of
-- plain characters and weights that are ints, is read back as those weights in their order.
pub queue_weights_roundtrip :
    (env : Env) (key : Str) (e : Str × ℤ) (m default_value : List (Str × ℤ))
    → env key ≡ some (print_weights (e ∷ m))
    → All IsEntry (e ∷ m)
    → AreDistinct [] (e ∷ m)
    → get_env_as_queue_weights env key default_value ≡ e ∷ m
unfolding get_env_as_queue_weights
queue_weights_roundtrip env key e m default_value set entries distinct =
    rw
      (
        set,
        set_value,
        print_weights-nonempty e m entries.0,
        get_env_as_queue_weights,
        queue_weights,
        add_print_weights e m [] entries distinct,
      )
      refl
