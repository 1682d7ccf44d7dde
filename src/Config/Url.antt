-- ===== src/Config/Url.antt =====
-- The URL that buildRabbitMQURL of internal/config/config.go makes from credentials.
use mathlib.Core.List.{append_assoc}
use sms_mno_gateway.Base.{
  ℕ, ◌/◌, ◌%◌, ◌<◌, true, false, ◌&&◌, none, some, Str, codes, cut_first, cut_first-append, Lacks,
  is_empty, All, All-append, List, [], ◌∷◌, ◌++◌, ◌≡◌, ◌≢◌, refl, arith, ◌==◌, Bool-cases, inl, inr,
}
use sms_mno_gateway.Mno.Urls.{
  query_escape, utf8, escape_bytes, escape_byte, hex_digit, is_unreserved,
}
use sms_mno_gateway.Config.{Env, get_env, set_value, amqp_url, build_rabbit_mq_url}

-- A character that neither separates nor ends the credentials.
abbrev IsSafe : ℕ → Type 0
IsSafe c = (c ≢ b':') × (c ≢ b'@')

hex_digit-IsSafe : (d : ℕ) → d < 16 → IsSafe (hex_digit d)
unfolding hex_digit
hex_digit-IsSafe d h = ground arith

unreserved-IsSafe : (b : ℕ) → is_unreserved b ≡ true → IsSafe b
unfolding is_unreserved
unreserved-IsSafe b h = ground arith

escape_byte-IsSafe : (b : ℕ) → All IsSafe (escape_byte b)
unfolding escape_byte
escape_byte-IsSafe b = elim (Bool-cases (is_unreserved b)) [
  | inl plain ↦ rw (plain, escape_byte) (unreserved-IsSafe b plain, tt)
  | inr other ↦ elim (Bool-cases (b == b' ')) [
    | inl blank ↦ rw (other, blank, escape_byte) ((omega arith, omega arith), tt)
    | inr coded ↦
        rw (other, coded, escape_byte)
          (
            (omega arith, omega arith),
            (
              hex_digit-IsSafe (b / 16 % 16) (omega arith),
              (hex_digit-IsSafe (b % 16) (omega arith), tt),
            ),
          )
  ]
]

escape_bytes-IsSafe : (bs : List ℕ) → All IsSafe (escape_bytes bs)
unfolding escape_bytes
escape_bytes-IsSafe [] = tt
escape_bytes-IsSafe (b ∷ bs) =
    All-append IsSafe (escape_byte b) (escape_bytes bs) (escape_byte-IsSafe b)
      (escape_bytes-IsSafe bs)

query_escape-IsSafe : (s : Str) → All IsSafe (query_escape s)
unfolding query_escape
query_escape-IsSafe [] = tt
query_escape-IsSafe (c ∷ s) =
    All-append IsSafe (escape_bytes (utf8 c)) (query_escape s) (escape_bytes-IsSafe (utf8 c))
      (query_escape-IsSafe s)

no_colon : (s : Str) → All IsSafe s → Lacks b':' s
no_colon [] h = tt
no_colon (c ∷ s) h = (h.0.0, no_colon s h.1)

no_at : (s : Str) → All IsSafe s → Lacks b'@' s
no_at [] h = tt
no_at (c ∷ s) h = (h.0.1, no_at s h.1)

credentials : Str → Str → Str
credentials user pass = query_escape user ++ (b':' ∷ query_escape pass)

credentials-lacking : (user pass : Str) → Lacks b'@' (credentials user pass)
unfolding credentials
credentials-lacking user pass =
    All-append _ (query_escape user) (b':' ∷ query_escape pass)
      (no_at (query_escape user) (query_escape-IsSafe user))
      (omega arith, no_at (query_escape pass) (query_escape-IsSafe pass))

cut_credentials :
    (user pass address : Str)
    → (cut_first b'@' (query_escape user ++ (b':' ∷ (query_escape pass ++ (b'@' ∷ address))))
        ≡ some (credentials user pass, address))
      × (cut_first b':' (credentials user pass) ≡ some (query_escape user, query_escape pass))
unfolding credentials
cut_credentials user pass address = (
  (rw (append_assoc (query_escape user) (b':' ∷ query_escape pass) (b'@' ∷ address)) at
      (cut_first-append b'@' (credentials user pass) address (credentials-lacking user pass))),
  cut_first-append b':' (query_escape user) (query_escape pass)
      (no_colon (query_escape user) (query_escape-IsSafe user)),
)

-- Without RABBITMQ_URL and with a user or a password: behind the scheme, the URL has the credentials
-- before its first `@` and the address behind it, and the escaped user and password stand before and
-- behind the first colon of the credentials, whatever characters they hold.
pub rabbit_mq_url_credentials :
    (env : Env) (user pass : Str)
    → set_value env (codes "RABBITMQ_URL") ≡ none
    → get_env env (codes "RABBITMQ_USER") (codes "guest") ≡ user
    → get_env env (codes "RABBITMQ_PASS") (codes "guest") ≡ pass
    → (is_empty user && is_empty pass) ≡ false
    → (rest : Str) × (credentials : Str) × (build_rabbit_mq_url env ≡ codes "amqp://" ++ rest)
      × (cut_first b'@' rest
          ≡ some (
            credentials,
            get_env env (codes "RABBITMQ_HOST") (codes "localhost")
                ++ (b':' ∷ (get_env env (codes "RABBITMQ_PORT") (codes "5672") ++ (b'/' ∷ []))),
          ))
      × (cut_first b':' credentials ≡ some (query_escape user, query_escape pass))
unfolding build_rabbit_mq_url amqp_url
rabbit_mq_url_credentials env user pass unset user_is pass_is given =
    let address =
      get_env env (codes "RABBITMQ_HOST") (codes "localhost")
      ++ (b':' ∷ (get_env env (codes "RABBITMQ_PORT") (codes "5672") ++ (b'/' ∷ []))) in
    let cuts = cut_credentials user pass address in
    (
      query_escape user ++ (b':' ∷ (query_escape pass ++ (b'@' ∷ address))),
      credentials user pass,
      rw (unset, build_rabbit_mq_url, user_is, pass_is, given) refl,
      cuts.0,
      cuts.1,
    )
