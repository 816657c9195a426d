-- ===== src/Domain.antt =====
-- internal/entity/message.go, internal/entity/session.go, shared/schema.go and the tokens of
-- internal/usecase/boundary.go: the data that the components exchange. Strings are bytes.
-- Errors are values; a function that returns `error` alone returns `Result (Unit {0})`.
use golang_learning.Prelude.{
  ℕ, GoString, bytes, Bool, true, false, List, Option, ◌≡◌, refl, ◌⊎◌, inl, inr,
}

abbrev pub MessageRole : Type 0
MessageRole = GoString

unfoldable pub role_user : MessageRole
unfolding bytes
role_user = bytes "user"

unfoldable pub role_assistant : MessageRole
unfolding bytes
role_assistant = bytes "assistant"

pub record Session : Type 0 where
  pub session_id : GoString

pub record Message : Type 0 where
  pub session_id : GoString
  pub request_id : GoString
  pub role : MessageRole
  pub content : GoString

-- The time stamp is a number of nanoseconds; Go holds the float64 of seconds next to it.
pub record ChatRequest : Type 0 where
  pub request_id : GoString
  pub session_id : GoString
  pub content : GoString
  pub timestamp : ℕ

-- The UUID and the time that it takes are arguments.
unfoldable pub new_chat_request : GoString → ℕ → GoString → GoString → ChatRequest
new_chat_request id now session_id content = record {
  request_id = id;
  session_id = session_id;
  content = content;
  timestamp = now;
}

pub record ChatResponse : Type 0 where
  pub request_id : GoString
  pub session_id : GoString
  pub delta : GoString
  pub finish_reason : Option GoString

pub record ChatCompletedMessage : Type 0 where
  pub role : GoString
  pub content : GoString

pub record ChatCompleted : Type 0 where
  pub session_id : GoString
  pub request_id : GoString
  pub messages : List ChatCompletedMessage

pub record TokenEvent : Type 0 where
  pub request_id : GoString
  pub session_id : GoString
  pub user_message : GoString
  pub delta : GoString
  pub done : Bool

pub record PubSubToken : Type 0 where
  pub request_id : GoString
  pub delta : GoString
  pub done : Bool

-- `redis_nil` is redis.Nil, `wrapped` is fmt.Errorf with "%w".
pub data Error : Type 0 where
  failure : GoString → Error
  redis_nil : Error
  wrapped : GoString → Error → Error

-- errors.Is(err, redis.Nil)
unfoldable pub is_redis_nil : Error → Bool
is_redis_nil (failure s) = false
is_redis_nil redis_nil = true
is_redis_nil (wrapped s e) = is_redis_nil e

pub data Result {ℓ} (A : Type ℓ) : Type ℓ where
  ok : A → Result A
  err : Error → Result A

infixl 5 ◌>>=◌
abbrev pub ◌>>=◌ {ℓ κ} : {A : Type ℓ} {B : Type κ} → Result A → (A → Result B) → Result B
ok a >>= f = f a
err e >>= f = err e

abbrev pub is_ok {ℓ} : {A : Type ℓ} → Result A → Bool
is_ok (ok a) = true
is_ok (err e) = false

pub Result-cases {ℓ} :
    {A : Type ℓ} (result : Result A)
    → ((value : A) × (result ≡ ok value)) ⊎ ((problem : Error) × (result ≡ err problem))
Result-cases (ok value) = inl (value, refl)
Result-cases (err problem) = inr (problem, refl)
