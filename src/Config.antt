-- ===== src/Config.antt =====
-- internal/config/config.go: the helpers that read environment variables. Load stands in Values.
pub mod Weights
pub mod Url
pub mod Types
pub mod Networks
pub mod Values
use sms_mno_gateway.Base.{
  ℕ, ℤ, Bool, true, false, not, ◌&&◌, ◌||◌, if◌then◌else◌, Option, none, some, or_else, Str, codes,
  str_eq, trim_space, atoi, split_on, cut_first, List, [], ◌∷◌, ◌++◌, map, keep, is_empty, put,
}
use sms_mno_gateway.Mno.Urls.{query_escape}

-- os.LookupEnv.
abbrev pub Env : Type 0
Env = Str → Option Str

unfoldable pub get_env : Env → Str → Str → Str
get_env env key default_value = or_else (env key) default_value

parsed_or : {A : Type 0} → (Str → Option A) → Option Str → A → A
parsed_or parse none default_value = default_value
parsed_or parse (some value) default_value = or_else (parse value) default_value

unfoldable pub get_env_as_int : Env → Str → ℤ → ℤ
unfolding parsed_or
get_env_as_int env key = parsed_or atoi (env key)

-- time.ParseDuration, which computes with floating point numbers, is the argument `parse_duration`.
unfoldable pub get_env_as_duration : (Str → Option ℤ) → Env → Str → ℤ → ℤ
unfolding parsed_or
get_env_as_duration parse_duration env key = parsed_or parse_duration (env key)

is_one_of : List Str → Str → Bool
is_one_of [] s = false
is_one_of (t ∷ ts) s = str_eq s t || is_one_of ts s

-- strconv.ParseBool.
unfoldable pub parse_bool : Str → Option Bool
unfolding is_one_of
parse_bool s =
    if is_one_of
      (codes "1" ∷ codes "t" ∷ codes "T" ∷ codes "TRUE" ∷ codes "true" ∷ codes "True" ∷ []) s
    then some true
    else if is_one_of
        (codes "0" ∷ codes "f" ∷ codes "F" ∷ codes "FALSE" ∷ codes "false" ∷ codes "False" ∷ []) s
    then some false
    else none

unfoldable pub get_env_as_bool : Env → Str → Bool → Bool
unfolding parsed_or parse_bool
get_env_as_bool env key = parsed_or parse_bool (env key)

-- The default for a list that is empty.
unfoldable pub unless_empty {ℓ} : {A : Type ℓ} → List A → List A → List A
unless_empty [] default_value = default_value
unless_empty (x ∷ xs) default_value = x ∷ xs

-- A value that is set and not empty.
unfoldable pub set_value : Env → Str → Option Str
set_value env key = elim (env key) [
  | none ↦ none
  | some value ↦ if is_empty value then none else some value
]

unfoldable pub string_slice : Str → List Str
string_slice value = keep (λ t. not (is_empty t)) (map trim_space (split_on b',' value))

unfoldable pub get_env_as_string_slice : Env → Str → List Str → List Str
unfolding set_value string_slice unless_empty
get_env_as_string_slice env key default_value = elim (set_value env key) [
  | none ↦ default_value
  | some value ↦ unless_empty (string_slice value) default_value
]

unfoldable pub set_weight_of : Str → Option ℤ → List (Str × ℤ) → List (Str × ℤ)
unfolding put
set_weight_of name none m = m
set_weight_of name (some weight) m = if is_empty name then m else put name weight m

unfoldable pub add_pair : Option (Str × Str) → List (Str × ℤ) → List (Str × ℤ)
unfolding set_weight_of
add_pair none m = m
add_pair (some (name, weight)) m = set_weight_of (trim_space name) (atoi (trim_space weight)) m

unfoldable pub add_pairs : List Str → List (Str × ℤ) → List (Str × ℤ)
unfolding add_pair
add_pairs [] m = m
add_pairs (pair ∷ rest) m = add_pairs rest (add_pair (cut_first b':' (trim_space pair)) m)

unfoldable pub queue_weights : Str → List (Str × ℤ)
unfolding add_pairs
queue_weights value = add_pairs (split_on b',' value) []

unfoldable pub get_env_as_queue_weights : Env → Str → List (Str × ℤ) → List (Str × ℤ)
unfolding set_value queue_weights unless_empty
get_env_as_queue_weights env key default_value = elim (set_value env key) [
  | none ↦ default_value
  | some value ↦ unless_empty (queue_weights value) default_value
]

unfoldable pub amqp_url : Env → Str → Str → Str
unfolding get_env query_escape
amqp_url env user pass =
    let address =
      get_env env (codes "RABBITMQ_HOST") (codes "localhost")
      ++ (b':' ∷ (get_env env (codes "RABBITMQ_PORT") (codes "5672") ++ (b'/' ∷ []))) in
    if is_empty user && is_empty pass
    then codes "amqp://" ++ address
    else codes "amqp://" ++ (query_escape user ++ (b':' ∷ (query_escape pass ++ (b'@' ∷ address))))

unfoldable pub build_rabbit_mq_url : Env → Str
unfolding set_value amqp_url
build_rabbit_mq_url env = elim (set_value env (codes "RABBITMQ_URL")) [
  | some value ↦ value
  | none ↦
      amqp_url env (get_env env (codes "RABBITMQ_USER") (codes "guest"))
        (get_env env (codes "RABBITMQ_PASS") (codes "guest"))
]
