-- ===== src/Config.antt =====
-- config/config.go and parseAddr of internal/framework/redis/redis.go, with the functions of the
-- packages strings and strconv that they call. `env` is os.Getenv, which answers with the empty
-- string for a variable that is not set.
pub mod Split
mod Tests
use golang_learning.Prelude.{
  ℕ, ◌+◌, ◌-◌, ◌*◌, GoString, bytes, ◌==◌, is_empty, has_prefix, trim_prefix, Bool, true, false,
  ◌||◌, ltb, nat_eq, List, [], ◌∷◌, ◌++◌, Option, none, some, if◌then◌else◌,
}

-- strings.Split(s, sep) for a separator of one byte; `cur` is what has been read of a part.
unfoldable pub split_from : ℕ → GoString → GoString → List GoString
split_from sep cur [] = cur ∷ []
split_from sep cur (c ∷ s) =
    let later = cur ∷ split_from sep [] s in
    let longer = split_from sep (cur ++ c ∷ []) s in if nat_eq c sep then later else longer

unfoldable pub split : ℕ → GoString → List GoString
unfolding split_from
split sep s = split_from sep [] s

-- strings.Replace(s, old, new, 1) for an `old` that is not empty.
unfoldable pub replace_first : GoString → GoString → GoString → GoString
replace_first old new [] = []
replace_first old new (c ∷ s) =
    let rest = replace_first old new s in
    if has_prefix old (c ∷ s) then new ++ trim_prefix old (c ∷ s) else c ∷ rest

-- Integers; `negsuc n` is -(n + 1).
pub data ℤ : Type 0 where
  pos : ℕ → ℤ
  negsuc : ℕ → ℤ

-- The number that decimal digits stand for, behind those read.
unfoldable pub digits : ℕ → GoString → Option ℕ
digits n [] = some n
digits n (c ∷ s) =
    let rest = digits (n * 10 + (c - b'0')) s in if ltb c b'0' || ltb b'9' c then none else rest

abbrev pub number : GoString → Option ℕ
number [] = none
number (c ∷ s) = digits 0 (c ∷ s)

-- An int has 64 bits.
abbrev pub positive : Option ℕ → Option ℤ
positive none = none
positive (some n) = if ltb n 0x8000000000000000 then some (pos n) else none

abbrev pub negative : Option ℕ → Option ℤ
negative none = none
negative (some n) =
    if nat_eq n 0
    then some (pos 0)
    else if ltb 0x8000000000000000 n
    then none
    else some (negsuc (n - 1))

-- strconv.Atoi; `none` stands for its errors.
unfoldable pub atoi : GoString → Option ℤ
unfolding digits
atoi [] = none
atoi (c ∷ s) =
    if nat_eq c b'-'
    then negative (number s)
    else if nat_eq c b'+'
    then positive (number s)
    else positive (number (c ∷ s))

pub record Config : Type 0 where
  pub kafka_brokers : List GoString
  pub redis_url : GoString
  pub database_url : GoString
  pub redis_ttl : ℤ
  pub llm_provider : GoString
  pub openai_api_key : GoString
  pub jwt_secret : GoString
  pub port : GoString
  pub callback_secret : GoString
  pub api_host : GoString
  pub grpc_port : GoString
  pub grpc_advertised_addr : GoString

abbrev pub asyncpg : GoString
asyncpg = bytes "postgresql+asyncpg://"

abbrev pub postgresql : GoString
postgresql = bytes "postgresql://"

abbrev pub default_ttl : ℤ
default_ttl = pos 86400

-- `v`, or the other string if it is empty
abbrev pub or_else : GoString → GoString → GoString
or_else v other = if is_empty v then other else v

abbrev pub ttl_of : GoString → ℤ
ttl_of v = if is_empty v then default_ttl else elim (atoi v) [ none ↦ default_ttl | some n ↦ n ]

unfoldable pub load : (GoString → GoString) → Config
load env =
    let grpc_port = or_else (env (bytes "GRPC_PORT")) (bytes "50051") in
    record {
      kafka_brokers = split b',' (env (bytes "KAFKA_BOOTSTRAP_SERVERS"));
      redis_url = env (bytes "REDIS_URL");
      database_url = replace_first asyncpg postgresql (env (bytes "DATABASE_URL"));
      redis_ttl = ttl_of (env (bytes "REDIS_TTL"));
      llm_provider = env (bytes "LLM_PROVIDER");
      openai_api_key = env (bytes "OPENAI_API_KEY");
      jwt_secret = env (bytes "JWT_SECRET");
      port = or_else (env (bytes "PORT")) (bytes "8000");
      callback_secret = env (bytes "CALLBACK_SECRET");
      api_host = env (bytes "API_HOST");
      grpc_port = grpc_port;
      grpc_advertised_addr =
          or_else (env (bytes "GRPC_ADVERTISED_ADDR")) (bytes "api:" ++ grpc_port);
    }

unfoldable pub parse_addr : GoString → GoString
parse_addr url = trim_prefix (bytes "redis://") url
