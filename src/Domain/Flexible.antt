-- ===== src/Domain/Flexible.antt =====
-- FlexibleInt64.UnmarshalJSON of internal/sms/domain/message.go, which reads the outbox id.
use sms_mno_gateway.Base.{
  suc, ◌≤◌, ℤ, pos, negsuc, pos_part, neg_part, int_max, ◌||◌, ◌==◌, false, if◌then◌else◌, Option,
  some, Str, codes, str_eq, atoi, itoa, atoi-itoa, decimal, decimal-IsDigit, IsDigit,
  decimal-ne-nil, [], ◌∷◌, ◌++◌, reverse, is_empty, is_empty-false, ◌≡◌, refl, ◌∙◌, ap, arith, All,
  All-append, ◌≢◌,
}
use mathlib.Core.List.{reverse-reverse, reverse-cons, reverse-append}

trim_left_quotes : Str → Str
trim_left_quotes [] = []
trim_left_quotes (c ∷ s) = if c == b'"' then trim_left_quotes s else c ∷ s

-- strings.Trim with the quote.
unfoldable pub trim_quotes : Str → Str
unfolding trim_left_quotes
trim_quotes s = reverse (trim_left_quotes (reverse (trim_left_quotes s)))

read_id : Str → Option ℤ
read_id s = if is_empty s || str_eq s (codes "null") then some (pos 0) else atoi s

-- The value of a field, none for an error. strconv.ParseInt with the base 10 reads what Atoi reads.
unfoldable pub unmarshal_json : Str → Option ℤ
unfolding read_id trim_quotes
unmarshal_json text = read_id (trim_quotes text)

abbrev HasNoQuote : Str → Type 0
HasNoQuote = All (λ c. (c == b'"') ≡ false)

trim_left_quotes-free : (s : Str) → HasNoQuote s → trim_left_quotes s ≡ s
unfolding trim_left_quotes
trim_left_quotes-free [] h = refl
trim_left_quotes-free (c ∷ s) h = rw (h.0) refl

reverse-HasNoQuote : (s : Str) → HasNoQuote s → HasNoQuote (reverse s)
reverse-HasNoQuote [] h = tt
reverse-HasNoQuote (c ∷ s) h =
    rw (reverse-cons c s) (All-append _ (reverse s) (c ∷ []) (reverse-HasNoQuote s h.1) (h.0, tt))

digits-HasNoQuote : (s : Str) → All IsDigit s → HasNoQuote s
digits-HasNoQuote [] h = tt
digits-HasNoQuote (c ∷ s) h = let digit : IsDigit c = h.0 in (ground arith, digits-HasNoQuote s h.1)

itoa-HasNoQuote : (z : ℤ) → HasNoQuote (itoa z)
unfolding itoa
itoa-HasNoQuote (pos n) = digits-HasNoQuote (decimal n) (decimal-IsDigit n)
itoa-HasNoQuote (negsuc n) = (refl, digits-HasNoQuote (decimal (suc n)) (decimal-IsDigit (suc n)))

-- A number as a JSON string.
unfoldable pub quoted : Str → Str
quoted s = b'"' ∷ (s ++ (b'"' ∷ []))

trim_quotes-free : (s : Str) → HasNoQuote s → trim_quotes s ≡ s
unfolding trim_quotes
trim_quotes-free s h =
    rw (trim_left_quotes-free s h, trim_left_quotes-free (reverse s) (reverse-HasNoQuote s h))
      (reverse-reverse s)

open_quote : (s : Str) → s ≢ [] → HasNoQuote s → trim_left_quotes (quoted s) ≡ s ++ (b'"' ∷ [])
unfolding trim_left_quotes quoted
open_quote [] ne h = absurd (ne refl)
open_quote (c ∷ s) ne h = rw (h.0) refl

trim_quotes-quoted : (s : Str) → s ≢ [] → HasNoQuote s → trim_quotes (quoted s) ≡ s
unfolding trim_quotes trim_left_quotes
trim_quotes-quoted s ne h =
    rw
      (
        open_quote s ne h,
        reverse-append s (b'"' ∷ []),
        trim_left_quotes-free (reverse s) (reverse-HasNoQuote s h),
      )
      (reverse-reverse s)

itoa-ne-nil : (z : ℤ) → itoa z ≢ []
unfolding itoa
itoa-ne-nil (pos n) = decimal-ne-nil n
itoa-ne-nil (negsuc n) = λ e. cc

digits-not-null : (s : Str) → All IsDigit s → str_eq s (codes "null") ≡ false
unfolding str_eq
digits-not-null [] h = refl
digits-not-null (c ∷ s) h = let digit : IsDigit c = h.0 in ground arith

itoa-not-null : (z : ℤ) → str_eq (itoa z) (codes "null") ≡ false
unfolding itoa str_eq
itoa-not-null (pos n) = digits-not-null (decimal n) (decimal-IsDigit n)
itoa-not-null (negsuc n) = refl

read_id-itoa : (z : ℤ) → pos_part z ≤ int_max → neg_part z ≤ suc int_max → read_id (itoa z) ≡ some z
unfolding read_id
read_id-itoa z h k = rw (is_empty-false (itoa z) (itoa-ne-nil z), itoa-not-null z) (atoi-itoa z h k)

-- An id in the range of an int64 is read back from its decimal text, as a JSON number and as a JSON
-- string.
pub unmarshal_json-itoa :
    (z : ℤ)
    → pos_part z ≤ int_max
    → neg_part z ≤ suc int_max
    → (unmarshal_json (itoa z) ≡ some z) × (unmarshal_json (quoted (itoa z)) ≡ some z)
unfolding unmarshal_json
unmarshal_json-itoa z h k = (
  ap read_id (trim_quotes-free (itoa z) (itoa-HasNoQuote z)) ∙ read_id-itoa z h k,
  ap read_id (trim_quotes-quoted (itoa z) (itoa-ne-nil z) (itoa-HasNoQuote z)) ∙ read_id-itoa z h k,
)
