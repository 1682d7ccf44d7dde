-- ===== src/Base/Split.antt =====
-- strings.Split and strings.SplitN(s, sep, 2) at a separator of one character, and strings.TrimSpace
-- on texts without blanks.
use Prim.Native.Nat.{ℕ}
use mathlib.Core.Path.{◌≡◌, refl}
use mathlib.Core.Bool.{false}
use mathlib.Core.Logic.{◌≢◌}
use mathlib.Core.List.{List, [], ◌∷◌, ◌++◌, reverse, reverse-reverse, reverse-cons}
use mathlib.Core.Option.{Option, none, some}
use native.Mathlib.Omega.{arith}
use sms_mno_gateway.Base.Tests.{◌==◌, if◌then◌else◌}
use sms_mno_gateway.Base.Lists.{All, All-append}
use sms_mno_gateway.Base.Text.{Str, is_space, trim_left, trim_space}

pub push : ℕ → List Str → List Str
push c [] = (c ∷ []) ∷ []
push c (p ∷ ps) = (c ∷ p) ∷ ps

unfoldable pub split_on : ℕ → Str → List Str
unfolding push
split_on sep [] = [] ∷ []
split_on sep (c ∷ s) = let rest = split_on sep s in if c == sep then [] ∷ rest else push c rest

before : ℕ → Option (Str × Str) → Option (Str × Str)
before c none = none
before c (some (p, s)) = some (c ∷ p, s)

-- The two parts of SplitN, none if there is no separator.
unfoldable pub cut_first : ℕ → Str → Option (Str × Str)
unfolding before
cut_first sep [] = none
cut_first sep (c ∷ s) =
    let rest = before c (cut_first sep s) in if c == sep then some ([], s) else rest

abbrev pub Lacks : ℕ → Str → Type 0
Lacks sep = All (λ c. c ≢ sep)

pub split_on-lacking : (sep : ℕ) (p : Str) → Lacks sep p → split_on sep p ≡ p ∷ []
unfolding split_on push
split_on-lacking sep [] h = refl
split_on-lacking sep (c ∷ p) h = ground (arith, split_on-lacking sep p)

pub split_on-append :
    (sep : ℕ) (p s : Str) → Lacks sep p → split_on sep (p ++ (sep ∷ s)) ≡ p ∷ split_on sep s
unfolding split_on push
split_on-append sep [] s h = ground arith
split_on-append sep (c ∷ p) s h = ground (arith, split_on-append sep p s)

pub cut_first-append :
    (sep : ℕ) (p s : Str) → Lacks sep p → cut_first sep (p ++ (sep ∷ s)) ≡ some (p, s)
unfolding cut_first before
cut_first-append sep [] s h = ground arith
cut_first-append sep (c ∷ p) s h = ground (arith, cut_first-append sep p s)

-- No character is a blank.
abbrev pub HasNoBlank : Str → Type 0
HasNoBlank = All (λ c. is_space c ≡ false)

trim_left-blankless : (s : Str) → HasNoBlank s → trim_left s ≡ s
unfolding trim_left
trim_left-blankless [] h = refl
trim_left-blankless (c ∷ s) h = rw (h.0) refl

reverse-HasNoBlank : (s : Str) → HasNoBlank s → HasNoBlank (reverse s)
reverse-HasNoBlank [] h = tt
reverse-HasNoBlank (c ∷ s) h =
    rw (reverse-cons c s) (All-append _ (reverse s) (c ∷ []) (reverse-HasNoBlank s h.1) (h.0, tt))

pub trim_space-blankless : (s : Str) → HasNoBlank s → trim_space s ≡ s
unfolding trim_space
trim_space-blankless s h =
    rw (trim_left-blankless s h, trim_left-blankless (reverse s) (reverse-HasNoBlank s h))
      (reverse-reverse s)
