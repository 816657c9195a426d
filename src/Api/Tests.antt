-- ===== src/Api/Tests.antt =====
-- An API server over a Redis, a Kafka and a database in memory: alice opens a stream on session 1,
-- and bob asks for its history.
use golang_learning.Prelude.{
  GoString, bytes, has_prefix, trim_prefix, Bool, false, lookup, as_inserted, ◌==◌, [], ◌∷◌, ◌++◌,
  true, none, some, ◌≡◌, refl, arith,
}
use golang_learning.Domain.{Result, ok, err}
use golang_learning.Config.{Config, load}
use golang_learning.Store.{message_store}
use golang_learning.Store.Memory.{memory}
use golang_learning.TokenServer.{bearer_prefix}
use golang_learning.Publisher.{publish_request}
use golang_learning.Publisher.Memory.{kafka, json}
use golang_learning.Cache.{claim_owner, claim_owner_script}
use golang_learning.Cache.Memory.{in_memory, in_memory_laws, in_memory_frames, codec}
use golang_learning.Hub.{new_hub, register}
use golang_learning.Jwt.{text, Token, JwtLibrary, user_id_key, jwt}
use golang_learning.ChatStream.{stream}
use golang_learning.Api.{
  Backend, Api, ApiReply, Request, Endpoint, chat, history, returned, serve, happen_all,
}
use golang_learning.Api.Access.{Denied, sessions_stay_private}

abbrev user : Result GoString → GoString → Result Token
user (err e) raw = err e
user (ok key) raw =
    ok (record { hmac = true; valid = true; claims = some ((user_id_key, text raw) ∷ []) })

user-signed :
    (raw : GoString) (key_of : Bool → Result GoString) (t : Token) (given : Result GoString)
    → key_of true ≡ given
    → user given raw ≡ ok t
    → (key : GoString) × (key_of t.hmac ≡ ok key) × Unit {0}
user-signed raw key_of t (err x) g e = absurd (ground arith)
user-signed raw key_of t (ok key) g e = (key, ground arith, tt)

-- A token is the id of its user.
abbrev library : JwtLibrary
library = record {
  Signed = λ raw key. Unit {0};
  parse = λ raw key_of. user (key_of true) raw;
  parse_signed = λ raw key_of t e. user-signed raw key_of t (key_of true) refl e;
}

abbrev b : Backend
b = record {
  redis = in_memory;
  kafka = kafka;
  json = json;
  codec = codec;
  store = message_store memory (as_inserted (Unit {0}));
  library = library;
}

abbrev cfg : Config
cfg = load (λ name. bytes "k")

abbrev started : Api b
started = record {
  hub = new_hub;
  world = record {
    in_redis = record { strings = []; sets = [] };
    in_kafka = [];
    in_db = record { broken = false; at_key = λ i k. none };
  };
}

-- A turn on session 1, or a look at its history.
abbrev by : Endpoint → GoString → Request
by endpoint user_id = record {
  endpoint = endpoint;
  session_id = 1 ∷ [];
  authorization = bearer_prefix ++ user_id;
  body = some (9 ∷ []);
  request_id = 4 ∷ [];
}

abbrev alice : GoString
alice = 7 ∷ []

abbrev bob : GoString
bob = 8 ∷ []

sessions_stay_private_example :
    let t = happen_all b cfg (returned (4 ∷ []) ∷ []) (serve b cfg (by chat alice) started).0 in
    (reply : ApiReply) × (serve b cfg (by history bob) t ≡ (t, reply)) × Denied reply
unfolding load jwt has_prefix bearer_prefix lookup ◌==◌ user_id_key trim_prefix serve stream
    claim_owner claim_owner_script publish_request register new_hub
sessions_stay_private_example =
    sessions_stay_private b cfg in_memory_frames in_memory_laws (1 ∷ []) alice bob (by chat alice)
      started 0 (returned (4 ∷ []) ∷ []) (by history bob) refl refl refl refl refl (λ e. cc)
