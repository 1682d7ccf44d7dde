-- ===== src/Base/Maps.antt =====
-- Go maps with string keys as association lists: a key has at most one entry.
use mathlib.Core.Path.{◌≡◌, ap}
use mathlib.Core.Option.{Option, none, some}
use mathlib.Core.List.{List, [], ◌∷◌}
use mathlib.Core.Logic.{inl, inr}
use sms_mno_gateway.Base.Tests.{if◌then◌else◌, Bool-cases, or_else}
use sms_mno_gateway.Base.Lists.{All}
use sms_mno_gateway.Base.Text.{Str, str_eq}

module _ {ℓ} {A : Type ℓ} where
  unfoldable pub lookup : Str → List (Str × A) → Option A
  lookup k [] = none
  lookup k ((j, a) ∷ rest) = if str_eq j k then some a else lookup k rest

  -- `m[k] = a`.
  unfoldable pub put : Str → A → List (Str × A) → List (Str × A)
  put k a [] = (k, a) ∷ []
  put k a ((j, b) ∷ rest) = if str_eq j k then (j, a) ∷ rest else (j, b) ∷ put k a rest

module _ {ℓ κ} {A : Type ℓ} (P : A → Type κ) where
  -- Every value of the map satisfies `P`.
  abbrev pub AllValues : List (Str × A) → Type κ
  AllValues = All (λ e. P e.1)

  pub lookup-AllValues :
      (k : Str) (m : List (Str × A)) (a : A) → AllValues m → lookup k m ≡ some a → P a
  unfolding lookup
  lookup-AllValues k [] a h e = absurd (cc e)
  lookup-AllValues k ((j, b) ∷ rest) a h e = elim (Bool-cases (str_eq j k)) [
    | inl same ↦
        let found : some b ≡ some a = (rw same at e) in rw (← ap (λ o. or_else o b) found) h.0
    | inr other ↦ lookup-AllValues k rest a h.1 (rw other at e)
  ]

  pub put-AllValues :
      (k : Str) (a : A) (m : List (Str × A)) → P a → AllValues m → AllValues (put k a m)
  unfolding put
  put-AllValues k a [] p h = (p, tt)
  put-AllValues k a ((j, b) ∷ rest) p h = elim (Bool-cases (str_eq j k)) [
    | inl same ↦ rw same (p, h.1)
    | inr other ↦ rw other (h.0, put-AllValues k a rest p h.1)
  ]
