-- ===== src/TokenServer.antt =====
-- internal/adapter/controller/grpc/token_server.go, the credentials that
-- internal/usecase/stream_tokens.go attaches to a connection, and the HTTP callback of
-- internal/adapter/controller/http/handler/token_callback.go: the ways in which tokens reach the
-- hub from outside, behind the shared secret.
pub mod Access
pub mod Tokens
mod Tests
use golang_learning.Prelude.{
  ℕ, GoString, bytes, ◌==◌, is_empty, has_prefix, trim_prefix, Bool, true, false, not, ◌||◌, List,
  [], ◌∷◌, ◌++◌, Option, none, some, if◌then◌else◌,
}
use golang_learning.Domain.{PubSubToken, Error}
use golang_learning.Hub.{TokenHub, deliver}

-- "Bearer ", "authorization"
unfoldable pub bearer_prefix : GoString
unfolding bytes
bearer_prefix = bytes "Bearer "

unfoldable pub authorization_key : GoString
unfolding bytes
authorization_key = bytes "authorization"

-- streamCreds.GetRequestMetadata: the one header that it adds
unfoldable pub get_request_metadata : GoString → GoString × GoString
get_request_metadata secret = (authorization_key, bearer_prefix ++ secret)

-- The gRPC codes that the server answers with.
pub data Code : Type 0 where
  internal unauthenticated invalid_argument : Code

-- How a call ends: in a status error, in another error, or well.
pub data Outcome : Type 0 where
  status : Code → GoString → Outcome
  failed : Error → Outcome
  done : Outcome

-- `metadata` is what the request carries: nothing, or the values of the key "authorization".
-- subtle.ConstantTimeCompare gives 1 on equal slices and 0 on others.
unfoldable pub stream_auth_interceptor : GoString → Option (List GoString) → Outcome → Outcome
stream_auth_interceptor secret metadata handler =
    if is_empty secret then status internal (bytes "server not configured") else elim metadata [
      | none ↦ status unauthenticated (bytes "missing metadata")
      | some values ↦ elim values [
        | [] ↦ status unauthenticated (bytes "missing authorization")
        | value ∷ _ ↦
            if not (has_prefix bearer_prefix value)
              || not (trim_prefix bearer_prefix value == secret)
            then status unauthenticated (bytes "invalid credentials")
            else handler
      ]
    ]

pub record TokenMessage : Type 0 where
  pub request_id : GoString
  pub delta : GoString
  pub done : Bool

-- What stream.Recv returns: a message, io.EOF or another error.
pub data Received : Type 0 where
  msg : TokenMessage → Received
  eof : Received
  broken : Error → Received

unfoldable pub to_pub_sub : TokenMessage → PubSubToken
to_pub_sub m = record { request_id = m.request_id; delta = m.delta; done = m.done }

-- DeliverTokens, over what Recv returns call by call; `none` waits for the next call. `ack` is the
-- outcome of SendAndClose.
unfoldable pub deliver_tokens : Outcome → List Received → TokenHub → TokenHub × Option Outcome
unfolding to_pub_sub
deliver_tokens ack [] h = (h, none)
deliver_tokens ack (eof ∷ rest) h = (h, some ack)
deliver_tokens ack (broken e ∷ rest) h = (h, some (failed e))
deliver_tokens ack (msg m ∷ rest) h =
    let after = deliver_tokens ack rest (deliver m.request_id (to_pub_sub m) h) in
    if is_empty m.request_id
    then (h, some (status invalid_argument (bytes "request_id required")))
    else after

-- TokenCallbackHandler: `new_token_callback_handler` refuses an empty secret.
unfoldable pub new_token_callback_handler : GoString → Option GoString
new_token_callback_handler secret = if is_empty secret then none else some secret

-- Handle: the hub afterwards and the HTTP status. `body` is the token that the JSON body binds to,
-- if it does.
unfoldable pub handle :
    GoString → GoString → GoString → Option PubSubToken → TokenHub → TokenHub × ℕ
handle secret authz request_id body h =
    let bearer : GoString =
      if has_prefix bearer_prefix authz then trim_prefix bearer_prefix authz else [] in
    if is_empty secret || not (bearer == secret)
    then (h, 401)
    else elim body [ none ↦ (h, 400) | some token ↦ (deliver request_id token h, 200) ]
