-- ===== src/Base/State.antt =====
-- Stateful code: a computation takes the world and returns its value with the world left behind.
use mathlib.Core.Path.{◌≡◌}
use mathlib.Core.List.{List, [], ◌∷◌}
use mathlib.Core.Option.{Option, none, some}
use native.Mathlib.Omega.{arith}

module _ {W : Type 0} where
  infixl 5 ◌>>=◌ ◌>>◌
  abbrev pub ◌>>=◌ : {A B : Type 0} → (W → A × W) → (A → W → B × W) → W → B × W
  ◌>>=◌ m f w = let r = m w in f r.0 r.1

  abbrev pub ◌>>◌ : {B : Type 0} → (W → Unit {0} × W) → (W → B × W) → W → B × W
  ◌>>◌ m k w = k (m w).1

  abbrev pub give : {A : Type 0} → A → W → A × W
  give a w = (a, w)

  -- `if err := a; err != nil { return err }; b`, an error that is nil being `none`.
  infixr 6 ◌>>?◌
  abbrev pub ◌>>?◌ : {E : Type 0} → (W → Option E × W) → (W → Option E × W) → W → Option E × W
  ◌>>?◌ a b w = let r = a w in elim r.0 [ none ↦ b r.1 | some e ↦ (some e, r.1) ]

  -- `for _, x := range xs { if err := f x; err != nil { return err } }`.
  unfoldable pub each_ok : {A E : Type 0} → (A → W → Option E × W) → List A → W → Option E × W
  each_ok f [] w = (none, w)
  each_ok f (x ∷ xs) w =
      let r = f x w in elim r.0 [ none ↦ each_ok f xs r.1 | some e ↦ (some e, r.1) ]

  -- With no error in the first part, the second runs on the world that the first leaves.
  pub >>?_none :
      {E : Type 0} (a b : W → Option E × W) (w : W)
      → ((a >>? b) w).0 ≡ none
      → ((a w).0 ≡ none) × ((b (a w).1).0 ≡ none) × (((a >>? b) w).1 ≡ (b (a w).1).1)
  >>?_none a b w h = ground arith
