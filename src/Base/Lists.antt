-- ===== src/Base/Lists.antt =====
-- Lists measured by native numbers, Boolean filters, and predicates over all entries.
use Prim.Native.Nat.{ℕ, zero, suc, ◌+◌, ◌-◌, min}
use mathlib.Core.Path.{◌≡◌, refl, ap}
use mathlib.Core.Bool.{Bool, true, false, not}
use mathlib.Core.List.{List, [], ◌∷◌, ◌++◌, Perm, perm_middle, perm_append_comm, append_assoc}
use mathlib.Core.List.Perm
use mathlib.Core.Logic.{inl, inr, ◌≢◌, ◌⊎◌}
use native.Mathlib.Omega.{arith}
use sms_mno_gateway.Base.Tests.{if◌then◌else◌, Bool-cases}

module _ {ℓ} {A : Type ℓ} where
  abbrev pub length : List A → ℕ
  length [] = 0
  length (x ∷ xs) = suc (length xs)

  abbrev pub take : ℕ → List A → List A
  take zero xs = []
  take (suc n) [] = []
  take (suc n) (x ∷ xs) = x ∷ take n xs

  abbrev pub drop : ℕ → List A → List A
  drop zero xs = xs
  drop (suc n) [] = []
  drop (suc n) (x ∷ xs) = drop n xs

  abbrev pub is_empty : List A → Bool
  is_empty [] = true
  is_empty (x ∷ xs) = false

  -- The entries that pass a test, in order.
  unfoldable pub keep : (A → Bool) → List A → List A
  keep p [] = []
  keep p (x ∷ xs) = if p x then x ∷ keep p xs else keep p xs

  abbrev pub All {κ} : (A → Type κ) → List A → Type κ
  All P [] = Unit
  All P (x ∷ xs) = P x × All P xs

  pub is_empty-false : (xs : List A) → xs ≢ [] → is_empty xs ≡ false
  is_empty-false [] h = absurd (h refl)
  is_empty-false (x ∷ xs) h = refl

  pub length-append : (xs ys : List A) → length (xs ++ ys) ≡ length xs + length ys
  length-append [] ys = omega arith
  length-append (x ∷ xs) ys = omega (arith, length-append xs ys)

  pub length-take : (n : ℕ) (xs : List A) → length (take n xs) ≡ min n (length xs)
  length-take zero xs = omega arith
  length-take (suc n) [] = omega arith
  length-take (suc n) (x ∷ xs) = omega (arith, length-take n xs)

  pub length-drop : (n : ℕ) (xs : List A) → length (drop n xs) ≡ length xs - n
  length-drop zero xs = omega arith
  length-drop (suc n) [] = omega arith
  length-drop (suc n) (x ∷ xs) = omega (arith, length-drop n xs)

  pub take-append-drop : (n : ℕ) (xs : List A) → take n xs ++ drop n xs ≡ xs
  take-append-drop zero xs = refl
  take-append-drop (suc n) [] = refl
  take-append-drop (suc n) (x ∷ xs) = ap (λ r. x ∷ r) (take-append-drop n xs)

  pub length-keep_split :
      (p : A → Bool) (xs : List A)
      → length (keep p xs) + length (keep (λ x. not (p x)) xs) ≡ length xs
  unfolding keep
  length-keep_split p [] = omega arith
  length-keep_split p (x ∷ xs) = ground (arith, length-keep_split p xs)

module _ {ℓ} {A : Type ℓ} (p : A → Bool) where
  -- What passes a test and what fails it is the whole list, in another order.
  pub keep_split-perm : (xs : List A) → Perm (keep p xs ++ keep (λ x. not (p x)) xs) xs
  unfolding keep
  keep_split-perm [] = Perm.nil
  keep_split-perm (x ∷ xs) = elim (Bool-cases (p x)) [
    | inl e ↦ rw e (Perm.cons x (keep_split-perm xs))
    | inr e ↦ rw e (
        Perm.trans (perm_middle (keep p xs) (keep (λ y. not (p y)) xs))
          (Perm.cons x (keep_split-perm xs)))
  ]

  -- What is kept passes the test.
  pub All-keep_self : (xs : List A) → All (λ x. p x ≡ true) (keep p xs)
  unfolding keep
  All-keep_self [] = tt
  All-keep_self (x ∷ xs) = elim (Bool-cases (p x)) [
    | inl e ↦ rw e (e, All-keep_self xs)
    | inr e ↦ rw e (All-keep_self xs)
  ]

module _ {ℓ κ} {A : Type ℓ} (P : A → Type κ) where
  pub All-append : (xs ys : List A) → All P xs → All P ys → All P (xs ++ ys)
  All-append [] ys hx hy = hy
  All-append (x ∷ xs) ys hx hy = (hx.0, All-append xs ys hx.1 hy)

  All-if : (b : Bool) (xs ys : List A) → All P xs → All P ys → All P (if b then xs else ys)
  All-if true xs ys hx hy = hx
  All-if false xs ys hx hy = hy

  pub All-keep : (p : A → Bool) (xs : List A) → All P xs → All P (keep p xs)
  unfolding keep
  All-keep p [] h = tt
  All-keep p (x ∷ xs) h =
      let rest = All-keep p xs h.1 in All-if (p x) (x ∷ keep p xs) (keep p xs) (h.0, rest) rest

module _ {ℓ} {A : Type ℓ} where
  pub perm_swap_front : (xs ys zs : List A) → Perm (xs ++ (ys ++ zs)) (ys ++ (xs ++ zs))
  perm_swap_front xs ys zs =
      rw (← append_assoc xs ys zs, ← append_assoc ys xs zs)
        (Perm.append_right zs (perm_append_comm xs ys))

  pub perm_turn_three :
      (xs ys zs es : List A) → Perm (zs ++ (ys ++ (xs ++ es))) ((xs ++ (ys ++ zs)) ++ es)
  perm_turn_three xs ys zs es =
      rw (append_assoc xs (ys ++ zs) es, append_assoc ys zs es)
        (Perm.trans (Perm.append_left zs (perm_swap_front ys xs es)) (
          Perm.trans (perm_swap_front zs xs (ys ++ es))
            (Perm.append_left xs (perm_swap_front zs ys es))))

module _ {ℓ κ} {A : Type ℓ} (P : A → Type κ) where
  -- An entry in the middle of a list can be taken out and replaced.
  pub All-middle :
      (xs : List A) (y : A) (ys : List A)
      → All P (xs ++ (y ∷ ys))
      → P y × ((z : A) → P z → All P (xs ++ (z ∷ ys)))
  All-middle [] y ys h = (h.0, λ z hz. (hz, h.1))
  All-middle (x ∷ xs) y ys h =
      let rest = All-middle xs y ys h.1 in (rest.0, λ z hz. (h.0, rest.1 z hz))

module _ {ℓ} {A : Type ℓ} where
  pub left_nil : (xs ys : List A) → xs ++ ys ≡ [] → xs ≡ []
  left_nil [] ys e = refl
  left_nil (x ∷ xs) ys e = absurd (cc e)

module _ {ℓ} {A : Type ℓ} where
  pub nil-or-cons : (xs : List A) → (xs ≡ []) ⊎ (is_empty xs ≡ false)
  nil-or-cons [] = inl refl
  nil-or-cons (x ∷ xs) = inr refl

  -- If no entry fails the test, all pass.
  pub keep_all : (p : A → Bool) (xs : List A) → keep (λ x. not (p x)) xs ≡ [] → keep p xs ≡ xs
  unfolding keep
  keep_all p [] h = refl
  keep_all p (x ∷ xs) h = elim (Bool-cases (p x)) [
    | inl e ↦ rw e (ap (λ k. x ∷ k) (keep_all p xs (rw e at h)))
    | inr e ↦ absurd (cc (rw e at h))
  ]
