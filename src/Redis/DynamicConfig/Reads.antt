-- ===== src/Redis/DynamicConfig/Reads.antt =====
-- What GetInt of internal/sms/adapters/redis/dynamic_config.go returns after a write.
use sms_mno_gateway.Base.{
  suc, ◌≤◌, ℤ, pos_part, neg_part, int_max, is_none, if◌then◌else◌, Option, none, some, Str,
  str_eq_iff, atoi, itoa, atoi-itoa, List, [], ◌∷◌, lookup, put, ◌≡◌, refl, ◌∙◌, arith,
}
use sms_mno_gateway.Redis.{put_missing}
use sms_mno_gateway.Redis.Hashes.{lookup-put}
use sms_mno_gateway.Redis.DynamicConfig.{
  DynamicConfig, r_lock, released, r_unlock, answered, unlock_again, read_field, cached_text,
  get_int,
}

unfoldable pub first_of : Option Str → Option Str → Option Str
first_of none o = o
first_of (some t) o = some t

pub lookup-put_missing :
    (f : Str) (es h : List (Str × Str))
    → lookup f (put_missing es h) ≡ first_of (lookup f h) (lookup f es)
unfolding put_missing lookup first_of
lookup-put_missing f [] h = elim (lookup f h) as (λ o. o ≡ first_of o none) [
  | none ↦ refl
  | some t ↦ refl
]
lookup-put_missing f ((k, v) ∷ es) h = ground (
  arith,
  lookup-put_missing f es (if is_none (lookup k h) then put k v h else h),
  lookup-put f k v h,
  str_eq_iff k f,
)

-- What is read of the cached text of a field while nobody else reads: an int, the default, or the
-- fatal error of a second RUnlock.
unfoldable pub outcome : {S : Type 0} → Option Str → ℤ → S → Option (ℤ × S)
outcome none d s = some (d, s)
outcome (some raw) d s = elim (atoi raw) [ some v ↦ some (v, s) | none ↦ none ]

outcome-int :
    {S : Type 0} (raw : Str) (d v : ℤ) (s : S)
    → atoi raw ≡ some v
    → outcome (some raw) d s ≡ some (v, s)
unfolding outcome
outcome-int raw d v s e = rw (e, outcome) refl

outcome-crash :
    {S : Type 0} (raw : Str) (d : ℤ) (s : S) → atoi raw ≡ none → outcome (some raw) d s ≡ none
unfolding outcome
outcome-crash raw d s e = rw (e, outcome) refl

module _ {W : Type 0} where
  read_field-outcome :
      (text : Option Str) (d : ℤ) (s : DynamicConfig W)
      → s.readers ≡ 0
      → read_field text d (r_lock s) ≡ outcome text d s
  unfolding read_field unlock_again answered r_unlock released r_lock outcome
  read_field-outcome none d s idle = refl
  read_field-outcome (some raw) d s idle =
      elim (atoi raw)
        as (λ o.
          unlock_again o d (r_unlock (r_lock s))
          ≡ elim o as (λ _. Option (ℤ × DynamicConfig W)) [ some v ↦ some (v, s) | none ↦ none ]) [
            | some v ↦ refl
            | none ↦ rw (idle, released) refl
          ]

  pub get_int-outcome :
      (namespace field : Str) (d : ℤ) (s : DynamicConfig W)
      → s.readers ≡ 0
      → get_int namespace field d s ≡ outcome (cached_text namespace field s) d s
  unfolding get_int cached_text
  get_int-outcome namespace field d s idle =
      read_field-outcome (cached_text namespace field s) d s idle

  pub read-crash :
      (namespace field raw : Str) (d : ℤ) (s : DynamicConfig W)
      → cached_text namespace field s ≡ some raw
      → s.readers ≡ 0
      → atoi raw ≡ none
      → get_int namespace field d s ≡ none
  read-crash namespace field raw d s text idle bad =
      get_int-outcome namespace field d s idle ∙ rw text (outcome-crash raw d s bad)

  pub read-int :
      (namespace field : Str) (d v : ℤ) (s : DynamicConfig W)
      → pos_part v ≤ int_max
      → neg_part v ≤ suc int_max
      → cached_text namespace field s ≡ some (itoa v)
      → s.readers ≡ 0
      → get_int namespace field d s ≡ some (v, s)
  read-int namespace field d v s upper lower text idle =
      get_int-outcome namespace field d s idle
      ∙ rw text (outcome-int (itoa v) d v s (atoi-itoa v upper lower))
