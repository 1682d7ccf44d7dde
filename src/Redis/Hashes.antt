-- ===== src/Redis/Hashes.antt =====
-- Looking up the fields of a Redis hash, whose entries have distinct names.
use sms_mno_gateway.Base.{
  true, false, some, Str, str_eq, str_eq_iff, List, [], ◌∷◌, lookup, put, if◌then◌else◌, ◌≡◌, refl,
  arith, Bool-cases, inl, inr, is_none, if_split,
}
use sms_mno_gateway.Redis.{put_all, put_missing, HasUniqueKeys}

module _ {A : Type 0} where
  pub lookup-put :
      (j k : Str) (a : A) (m : List (Str × A))
      → lookup j (put k a m) ≡ (if str_eq k j then some a else lookup j m)
  unfolding lookup put
  lookup-put j k a [] = refl
  lookup-put j k a ((i, b) ∷ m) =
      ground (arith, str_eq_iff i k, str_eq_iff i j, str_eq_iff k j, lookup-put j k a m)

  pub lookup-put_self : (k : Str) (a : A) (m : List (Str × A)) → lookup k (put k a m) ≡ some a
  lookup-put_self k a m = ground (arith, lookup-put k k a m, str_eq_iff k k)

lookup-same :
    {A : Type 0} (j k : Str) (m : List (Str × A)) → str_eq j k ≡ true → lookup j m ≡ lookup k m
lookup-same j k m e = rw ((str_eq_iff j k).0 e) refl

pub put-HasUniqueKeys :
    {A : Type 0} (k : Str) (a : A) (m : List (Str × A))
    → HasUniqueKeys m
    → HasUniqueKeys (put k a m)
unfolding put lookup
put-HasUniqueKeys k a [] u = (refl, tt)
put-HasUniqueKeys k a ((j, b) ∷ m) u = elim (Bool-cases (str_eq j k)) [
  | inl same ↦ rw same (u.0, u.1)
  | inr other ↦ rw other (
    rw
        (
          lookup-put j k a m,
          (let flip : str_eq k j ≡ false = ground (arith, str_eq_iff j k, str_eq_iff k j) in flip),
        )
        u.0,
    put-HasUniqueKeys k a m u.1,
  )
]

pub put_all-HasUniqueKeys :
    (es h : List (Str × Str)) → HasUniqueKeys h → HasUniqueKeys (put_all es h)
unfolding put_all
put_all-HasUniqueKeys [] h u = u
put_all-HasUniqueKeys ((k, v) ∷ es) h u =
    put_all-HasUniqueKeys es (put k v h) (put-HasUniqueKeys k v h u)

pub put_missing-HasUniqueKeys :
    (es h : List (Str × Str)) → HasUniqueKeys h → HasUniqueKeys (put_missing es h)
unfolding put_missing
put_missing-HasUniqueKeys [] h u = u
put_missing-HasUniqueKeys ((k, v) ∷ es) h u =
    put_missing-HasUniqueKeys es (if is_none (lookup k h) then put k v h else h) (
      if_split HasUniqueKeys (is_none (lookup k h)) (put k v h) h
        (λ missing. put-HasUniqueKeys k v h u) (λ there. u))
