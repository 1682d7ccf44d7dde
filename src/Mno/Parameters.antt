-- ===== src/Mno/Parameters.antt =====
-- The parameters of the request URL of internal/sms/adapters/mno/base.go.
use sms_mno_gateway.Base.{
  ℕ, suc, ◌+◌, false, ◌==◌, if◌then◌else◌, Str, codes, List, [], ◌∷◌, ◌++◌, All, drop, ◌≡◌, refl,
  arith,
}
use sms_mno_gateway.Domain.Message.{Message}
use sms_mno_gateway.Mno.Urls.{
  SmppUrls, query_escape, query_escape-IsEscaped, is_unreserved, IsEscaped, encode_values,
  request_values, build_request_url,
}

-- How often a character is in a text.
unfoldable pub occurrences : ℕ → Str → ℕ
occurrences c [] = 0
occurrences c (x ∷ s) = (if x == c then 1 else 0) + occurrences c s

occurrences-append :
    (c : ℕ) (s t : Str) → occurrences c (s ++ t) ≡ occurrences c s + occurrences c t
unfolding occurrences
occurrences-append c [] t = omega arith
occurrences-append c (x ∷ s) t = ground (arith, occurrences-append c s t)

separates : (b : ℕ) → IsEscaped b → ((b == b'&') ≡ false) × ((b == b'=') ≡ false)
unfolding is_unreserved
separates b h = ground arith

none_escaped : (s : Str) → All IsEscaped s → (occurrences b'&' s ≡ 0) × (occurrences b'=' s ≡ 0)
unfolding occurrences
none_escaped [] h = (refl, refl)
none_escaped (b ∷ s) h =
    let (amp, eq) = separates b h.0 in
    let rest = none_escaped s h.1 in (rw (amp, rest.0) refl, rw (eq, rest.1) refl)

-- A parameter with a name and a value.
parameter :
    (c : ℕ) (name value rest : Str)
    → occurrences c (name ++ (b'=' ∷ (query_escape value ++ (b'&' ∷ rest))))
      ≡ occurrences c name
        + (if b'=' == c then 1 else 0)
        + occurrences c (query_escape value)
        + (if b'&' == c then 1 else 0)
        + occurrences c rest
unfolding occurrences
parameter c name value rest = omega (
  arith,
  occurrences-append c name (b'=' ∷ (query_escape value ++ (b'&' ∷ rest))),
  occurrences-append c (query_escape value) (b'&' ∷ rest),
)

last_parameter :
    (c : ℕ) (name value : Str)
    → occurrences c (name ++ (b'=' ∷ query_escape value))
      ≡ occurrences c name + (if b'=' == c then 1 else 0) + occurrences c (query_escape value)
unfolding occurrences
last_parameter c name value = omega (arith, occurrences-append c name (b'=' ∷ query_escape value))

abbrev parameter_count : List (Str × Str) → ℕ
parameter_count [] = 0
parameter_count (kv ∷ kvs) = suc (parameter_count kvs)

-- Names that need no escape have neither separator.
abbrev AllNames : List (Str × Str) → Type 0
AllNames = All (λ kv. (occurrences b'&' kv.0 ≡ 0) × (occurrences b'=' kv.0 ≡ 0))

encode_values-count :
    (k v : Str) (kvs : List (Str × Str))
    → AllNames ((k, v) ∷ kvs)
    → (occurrences b'&' (encode_values ((k, v) ∷ kvs)) ≡ parameter_count kvs)
      × (occurrences b'=' (encode_values ((k, v) ∷ kvs)) ≡ suc (parameter_count kvs))
unfolding encode_values
encode_values-count k v [] h =
    let free = none_escaped (query_escape v) (query_escape-IsEscaped v) in
    (
      omega (arith, last_parameter b'&' k v, free.0, h.0.0),
      omega (arith, last_parameter b'=' k v, free.1, h.0.1),
    )
encode_values-count k v ((k', v') ∷ kvs) h =
    let free = none_escaped (query_escape v) (query_escape-IsEscaped v) in
    let ih = encode_values-count k' v' kvs h.1 in
    let rest = encode_values ((k', v') ∷ kvs) in
    (
      omega (arith, parameter b'&' k v rest, free.0, h.0.0, ih.0),
      omega (arith, parameter b'=' k v rest, free.1, h.0.1, ih.1),
    )

-- Whatever the texts of a message and the credentials are, the request URL of an SMPP sender has the
-- eight parameters that the code sets and no other: besides what the base URL has, seven signs `&`
-- and eight signs `=`.
pub build_request_url-parameters :
    (s : SmppUrls) (m : Message)
    → (occurrences b'&' (build_request_url s m) ≡ occurrences b'&' s.base_url + 7)
      × (occurrences b'=' (build_request_url s m) ≡ occurrences b'=' s.base_url + 8)
unfolding build_request_url occurrences request_values
build_request_url-parameters s m =
    let kvs = drop 1 (request_values s m) in
    let (amp, eq) = encode_values-count (codes "dlr-mask") (codes "31") kvs (
      (refl, refl),
      (
        (refl, refl),
        (
          (refl, refl),
          ((refl, refl), ((refl, refl), ((refl, refl), ((refl, refl), ((refl, refl), tt))))),
        ),
      ),
    ) in
    let query = encode_values (request_values s m) in
    (
      omega (arith, occurrences-append b'&' s.base_url (b'?' ∷ query), amp),
      omega (arith, occurrences-append b'=' s.base_url (b'?' ∷ query), eq),
    )
