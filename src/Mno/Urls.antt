-- ===== src/Mno/Urls.antt =====
-- url.QueryEscape and the URLs that internal/sms/adapters/mno/base.go builds with it.
use sms_mno_gateway.Base.{
  ℕ, ◌+◌, ◌-◌, ◌/◌, ◌%◌, Bool, true, not, ◌&&◌, ◌||◌, ◌==◌, leb, ltb, if◌then◌else◌, Str, codes,
  List, [], ◌∷◌, ◌++◌, str_eq, is_empty, All, All-append, ◌≡◌, ◌<◌, refl, arith, Bool-cases, inl,
  inr,
}
use sms_mno_gateway.Domain.Message.{Message, normalize_msisdn}

-- The bytes of a code point in UTF-8.
unfoldable pub utf8 : ℕ → List ℕ
utf8 c =
    if ltb c 0x80
    then c ∷ []
    else if ltb c 0x800
    then (0xC0 + c / 64) ∷ (0x80 + c % 64) ∷ []
    else if ltb c 0x10000
    then (0xE0 + c / 4096) ∷ (0x80 + c / 64 % 64) ∷ (0x80 + c % 64) ∷ []
    else (0xF0 + c / 262144) ∷ (0x80 + c / 4096 % 64) ∷ (0x80 + c / 64 % 64) ∷ (0x80 + c % 64) ∷ []

unfoldable pub hex_digit : ℕ → ℕ
hex_digit d = if ltb d 10 then b'0' + d else b'A' + d - 10

-- Letters, digits and `-`, `_`, `.`, `~`.
unfoldable pub is_unreserved : ℕ → Bool
is_unreserved b =
    (leb b'a' b && leb b b'z')
    || (leb b'A' b && leb b b'Z')
    || (leb b'0' b && leb b b'9')
    || b == b'-'
    || b == b'_'
    || b == b'.'
    || b == b'~'

unfoldable pub escape_byte : ℕ → Str
unfolding hex_digit is_unreserved
escape_byte b =
    if is_unreserved b
    then b ∷ []
    else if b == b' '
    then b'+' ∷ []
    else b'%' ∷ hex_digit (b / 16 % 16) ∷ hex_digit (b % 16) ∷ []

unfoldable pub escape_bytes : List ℕ → Str
unfolding escape_byte
escape_bytes [] = []
escape_bytes (b ∷ bs) = escape_byte b ++ escape_bytes bs

unfoldable pub query_escape : Str → Str
unfolding utf8 escape_bytes
query_escape [] = []
query_escape (c ∷ s) = escape_bytes (utf8 c) ++ query_escape s

-- The names and credentials of a Kannel gateway: the strings of SMPPConfig.
pub record SmppUrls : Type 0 where
  pub base_url : Str
  pub smsc : Str
  pub username : Str
  pub password : Str
  pub dlr_url : Str
  pub dlr_url_api_v2 : Str
  pub gateway_queue_name : Str

-- The choice of the delivery report URL, in buildDLRURL and in resolveDLRURL.
unfoldable pub resolve_dlr_url : Str → Str → Str → Message → Str
resolve_dlr_url primary api_v2 gateway_queue m =
    if not (is_empty api_v2)
      && (not (is_empty m.source_queue) && not (str_eq m.source_queue gateway_queue))
    then api_v2
    else primary

unfoldable pub build_dlr_url : SmppUrls → Message → Str
unfolding resolve_dlr_url query_escape
build_dlr_url s m =
    resolve_dlr_url s.dlr_url s.dlr_url_api_v2 s.gateway_queue_name m
    ++ (codes "?correlator="
        ++ (query_escape m.correlator
            ++ (codes "&user="
                ++ (query_escape s.username
                    ++ (codes "&passwd="
                        ++ (query_escape s.password
                            ++ codes
                                "&status=%d&answer=%A&sender=%P&reciever=%p&time=%t&usr=%n&message=%b"))))))

-- url.Values.Encode of names that need no escape: in the order of the names.
unfoldable pub encode_values : List (Str × Str) → Str
unfolding query_escape
encode_values [] = []
encode_values ((k, v) ∷ []) = k ++ (b'=' ∷ query_escape v)
encode_values ((k, v) ∷ (kv ∷ rest)) =
    k ++ (b'=' ∷ (query_escape v ++ (b'&' ∷ encode_values (kv ∷ rest))))

-- The values of the request, by name.
unfoldable pub request_values : SmppUrls → Message → List (Str × Str)
request_values s m =
    (codes "dlr-mask", codes "31")
    ∷ (codes "dlr-url", build_dlr_url s m)
    ∷ (codes "from", m.sender)
    ∷ (codes "password", s.password)
    ∷ (codes "smsc", s.smsc)
    ∷ (codes "text", m.content)
    ∷ (codes "to", normalize_msisdn m)
    ∷ (codes "username", s.username)
    ∷ []

unfoldable pub build_request_url : SmppUrls → Message → Str
build_request_url s m = s.base_url ++ (b'?' ∷ encode_values (request_values s m))

-- A character that an escaped value may have: none that separates values, names or the fragment.
abbrev pub IsEscaped : ℕ → Type 0
IsEscaped b = (is_unreserved b || (b == b'%' || b == b'+')) ≡ true

hex_digit-IsEscaped : (d : ℕ) → d < 16 → IsEscaped (hex_digit d)
unfolding hex_digit is_unreserved
hex_digit-IsEscaped d h = elim (Bool-cases (ltb d 10)) [
  | inl digit ↦ rw digit (ground arith)
  | inr letter ↦ rw letter (ground arith)
]

escape_byte-IsEscaped : (b : ℕ) → All IsEscaped (escape_byte b)
unfolding escape_byte
escape_byte-IsEscaped b = elim (Bool-cases (is_unreserved b)) [
  | inl free ↦ rw free (rw free refl, tt)
  | inr reserved ↦ rw reserved (elim (Bool-cases (b == b' ')) [
    | inl space ↦ rw space (refl, tt)
    | inr other ↦ rw other (
      refl,
      (
        hex_digit-IsEscaped (b / 16 % 16) (omega arith),
        (hex_digit-IsEscaped (b % 16) (omega arith), tt),
      ),
    )
  ])
]

escape_bytes-IsEscaped : (bs : List ℕ) → All IsEscaped (escape_bytes bs)
unfolding escape_bytes
escape_bytes-IsEscaped [] = tt
escape_bytes-IsEscaped (b ∷ bs) =
    All-append IsEscaped (escape_byte b) (escape_bytes bs) (escape_byte-IsEscaped b)
      (escape_bytes-IsEscaped bs)

-- A value that is escaped for a URL consists of letters, digits and `-_.~%+` only: whatever text a
-- message has, it cannot end its parameter and begin another.
pub query_escape-IsEscaped : (s : Str) → All IsEscaped (query_escape s)
unfolding query_escape
query_escape-IsEscaped [] = tt
query_escape-IsEscaped (c ∷ s) =
    All-append IsEscaped (escape_bytes (utf8 c)) (query_escape s) (escape_bytes-IsEscaped (utf8 c))
      (query_escape-IsEscaped s)
